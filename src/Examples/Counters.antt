-- ===== src/Examples/Counters.antt =====
-- The traffic counters and the scheduled jobs at concrete inputs.
use popu_gate.Prelude.{◌≡◌, refl, true, false, ◌+ℤ◌, pos, str_eq, codes, List, [], ◌∷◌, some, arith}
use popu_gate.Model.Traffic.{UserRow}
use popu_gate.Sys.{Env, Sys}
use popu_gate.SecretStore.Rows.{find, enabled_rows, sum_in, sum_out}
use popu_gate.Model.Secret.{Secret}
use popu_gate.Traffic.Store.{has_alert}
use popu_gate.Traffic.Quota.{check_secret_quota}
use popu_gate.Traffic.Exceeded.{check_secret_quota-disabled}
use popu_gate.Traffic.Flush.{UserLive, Live, flush_instance, nothing}
use popu_gate.Traffic.Account.{counters, find_user}
use popu_gate.Traffic.Counters.{counted, flush_instance-counters}
use popu_gate.Traffic.Watch.{
  Job, quotas, expirations, monthly_reset, Watched, run_jobs, run_jobs-Watched,
}
use popu_gate.Examples.Samples.{secret_row, calm, stormy, two_secrets}
use popu_gate.Examples.Secrets.{two-IsValid, two-enabled}

abbrev row_of_ann : UserRow
row_of_ann = record {
  label = codes "ann";
  instance_id = 2;
  bytes_in = pos 900;
  bytes_out = pos 90;
  snap_in = pos 500;
  snap_out = pos 50;
}

abbrev counting : Env → Sys
counting env = record {
  env = env;
  ticks = 0;
  db = record two_secrets { traffic_user = row_of_ann ∷ [] };
}

abbrev ann_live : UserLive
ann_live = record { from_client = pos 700; to_client = pos 50; connections = pos 1 }

-- The counters of bob are below nothing that was stored.
abbrev live : Live
live = record {
  conns_current = pos 0;
  users =
      (codes "ann", ann_live)
      ∷ (codes "bob", record { from_client = pos 3; to_client = pos 4; connections = pos 2 })
      ∷ [];
}

flush_instance-counters_example :
    counters
      (codes "bob")
      2
      (flush_instance 2 (some live) nothing (counting calm)).1.db.traffic_user
    ≡ counted
        (find_user (codes "bob") live.users)
        (counters (codes "bob") 2 (counting calm).db.traffic_user)
unfolding find_user str_eq
flush_instance-counters_example =
    flush_instance-counters 2 live nothing (counting calm) (codes "bob") (λ n. refl)
      (refl, (refl, tt))

abbrev jobs : List Job
jobs = quotas ∷ expirations ∷ monthly_reset ∷ quotas ∷ []

run_jobs-Watched_example : Watched (run_jobs jobs (counting stormy)).db
run_jobs-Watched_example = run_jobs-Watched jobs (counting stormy) (record {
  valid = record {
    unique = two-IsValid.unique;
    ascending = two-IsValid.ascending;
    room = two-IsValid.room;
  };
  enabled = two-enabled;
})

-- 990 bytes of traffic against a quota of 900.
abbrev ann : Secret
ann = record (secret_row 1 (codes "ann") true) { quota_bytes = pos 900 }

abbrev used_up : Sys
used_up = record (counting calm) {
  db = record (counting calm).db { secrets = ann ∷ secret_row 4 (codes "bob") true ∷ [] };
}

check_secret_quota-disabled_example :
    (after : Secret) × (find (codes "ann") (check_secret_quota ann used_up).1.db.secrets
      ≡ some after)
    × (after.enabled ≡ false)
    × (has_alert (codes "ann") 100 (check_secret_quota ann used_up).1.db.quota_alerts ≡ true)
unfolding find str_eq sum_in sum_out ◌+ℤ◌ has_alert enabled_rows
check_secret_quota-disabled_example =
    check_secret_quota-disabled ann ann 989 899 used_up (λ n. refl) refl refl refl (omega arith)
      (omega arith) refl (omega arith) refl
