-- ===== src/Examples/Samples.antt =====
-- Environments and tables for the examples.
use popu_gate.Prelude.{
  ℕ, ◌%◌, ℤ, pos, Bool, true, false, Str, codes, List, [], ◌∷◌, Option, none, some, ◌==◌,
}
use popu_gate.Model.Secret.{Secret}
use popu_gate.Model.Tables.{Tables}
use popu_gate.Sys.{Env, Sys, untested}

abbrev pub sixteen : List ℕ
sixteen = 0 ∷ 1 ∷ 2 ∷ 3 ∷ 4 ∷ 5 ∷ 6 ∷ 7 ∷ 8 ∷ 9 ∷ 250 ∷ 251 ∷ 252 ∷ 253 ∷ 254 ∷ 255 ∷ []

-- Dates are their day numbers in nanoseconds, by a table of two texts.
abbrev pub date_of : Str → Option ℤ
date_of s = elim s [ [] ↦ none | c ∷ cs ↦ some (pos c) ]

-- No call fails, the clock stands at 1000 s, and each probe fails.
abbrev pub calm : Env
calm = record {
  fails = λ _. false;
  random = λ _. some sixteen;
  clock = λ _. pos 1_000_000_000_000;
  probe = λ _ _. untested (codes "refused");
  add_days = λ t _. t;
  format_rfc3339 = λ _. codes "soon";
  parse_rfc3339 = λ _. none;
  parse_zulu = λ _. none;
  parse_date = date_of;
}

-- Every third call of the database fails.
abbrev pub stormy : Env
stormy = record calm { fails = λ n. n % 3 == 2 }

abbrev pub secret_row : ℕ → Str → Bool → Secret
secret_row i l on = record {
  id = i;
  label = l;
  secret_key = codes "00112233445566778899aabbccddeeff";
  created_at = pos 5;
  enabled = on;
  max_conns = pos 0;
  max_ips = pos 0;
  quota_bytes = pos 0;
  rate_limit_up_bps = pos 7;
  rate_limit_down_bps = pos 9;
  expires_at = codes "2020-01-01";
  notes = [];
  tags = [];
  archived_at = pos 0;
  traffic_in = pos 0;
  traffic_out = pos 0;
}

abbrev pub two_secrets : Tables
two_secrets = record {
  secrets = secret_row 1 (codes "ann") true ∷ secret_row 4 (codes "bob") true ∷ [];
  secret_seq = 4;
  upstreams = [];
  upstream_seq = 0;
  traffic_user = [];
  traffic_global = record {
    bytes_in = pos 0;
    bytes_out = pos 0;
    snap_in = pos 0;
    snap_out = pos 0;
  };
  traffic_history = [];
  quota_alerts = [];
  settings = [];
  instances = [];
  instance_seq = 0;
  task_overrides = [];
}

abbrev pub start : Sys
start = record { env = calm; ticks = 0; db = two_secrets }

abbrev pub start_stormy : Sys
start_stormy = record { env = stormy; ticks = 0; db = two_secrets }
