-- ===== src/Traffic/Store.antt =====
-- internal/store/traffic_store.go and internal/store/alert_store.go: the methods of the stores.
use popu_gate.Prelude.{
  ℕ, ℤ, pos, ◌+ℤ◌, Bool, true, false, ◌&&◌, Str, str_eq, List, [], ◌∷◌, ◌++◌, some, if◌then◌else◌,
  ◌==◌,
}
use popu_gate.Model.Traffic.{TrafficSnapshot, UserRow}
use popu_gate.Sys.{M, query, exec, transaction, pure, ◌>>◌}
use popu_gate.SecretStore.Rows.{sum_in, sum_out}

unfoldable pub get_global : M TrafficSnapshot
get_global = query (λ db. db.traffic_global)

-- The row of `traffic_global` with the deltas added and the readings stored.
abbrev pub global_with : TrafficSnapshot → TrafficSnapshot → TrafficSnapshot
global_with d g = record {
  bytes_in = g.bytes_in +ℤ d.bytes_in;
  bytes_out = g.bytes_out +ℤ d.bytes_out;
  snap_in = d.snap_in;
  snap_out = d.snap_out;
}

unfoldable pub update_global : TrafficSnapshot → M (Unit {0})
update_global d =
    exec (λ db. some (tt, record db { traffic_global = global_with d db.traffic_global }))

-- The sums over the instances; both are 0 where the label has no row.
unfoldable pub get_user_traffic : Str → M (ℤ × ℤ)
get_user_traffic label = query (λ db. (sum_in label db.traffic_user, sum_out label db.traffic_user))

-- The rows of one instance, by their labels.
unfoldable pub snapshots_of : ℕ → List UserRow → List (Str × (ℤ × ℤ))
snapshots_of i [] = []
snapshots_of i (r ∷ rs) =
    let rest = snapshots_of i rs in
    if r.instance_id == i then (r.label, (r.snap_in, r.snap_out)) ∷ rest else rest

unfoldable pub get_all_user_snapshots : ℕ → M (List (Str × (ℤ × ℤ)))
unfolding snapshots_of
get_all_user_snapshots i = query (λ db. snapshots_of i db.traffic_user)

-- INSERT … ON CONFLICT(label, instance_id) DO UPDATE
unfoldable pub upsert : Str → ℕ → TrafficSnapshot → List UserRow → List UserRow
upsert l i d [] =
    record {
      label = l;
      instance_id = i;
      bytes_in = d.bytes_in;
      bytes_out = d.bytes_out;
      snap_in = d.snap_in;
      snap_out = d.snap_out;
    }
    ∷ []
upsert l i d (r ∷ rs) =
    if str_eq r.label l && r.instance_id == i
    then record r {
      bytes_in = r.bytes_in +ℤ d.bytes_in;
      bytes_out = r.bytes_out +ℤ d.bytes_out;
      snap_in = d.snap_in;
      snap_out = d.snap_out;
    }
      ∷ rs
    else r ∷ upsert l i d rs

unfoldable pub flush_users : List (Str × TrafficSnapshot) → ℕ → M (Unit {0})
flush_users [] i = pure tt
flush_users ((l, d) ∷ users) i = do
  exec (λ db. some (tt, record db { traffic_user = upsert l i d db.traffic_user }))
  flush_users users i

unfoldable pub flush_instance_traffic : List (Str × TrafficSnapshot) → ℕ → M (Unit {0})
unfolding flush_users
flush_instance_traffic users i = transaction (flush_users users i)

abbrev pub cleared : UserRow → UserRow
cleared r = record r { bytes_in = pos 0; bytes_out = pos 0; snap_in = pos 0; snap_out = pos 0 }

unfoldable pub clear_label : Str → List UserRow → List UserRow
clear_label l [] = []
clear_label l (r ∷ rs) = (if str_eq r.label l then cleared r else r) ∷ clear_label l rs

unfoldable pub reset_traffic : Str → M (Unit {0})
unfolding clear_label
reset_traffic label =
    exec (λ db. some (tt, record db { traffic_user = clear_label label db.traffic_user }))

unfoldable pub clear_all : List UserRow → List UserRow
clear_all [] = []
clear_all (r ∷ rs) = cleared r ∷ clear_all rs

unfoldable pub reset_all_traffic : M (Unit {0})
unfolding clear_all
reset_all_traffic = exec (λ db. some (tt, record db { traffic_user = clear_all db.traffic_user }))

-- COUNT(*) > 0 … WHERE label = ? AND percent = ?
unfoldable pub has_alert : Str → ℕ → List (Str × ℕ) → Bool
has_alert l p [] = false
has_alert l p ((k, q) ∷ alerts) = if str_eq k l && q == p then true else has_alert l p alerts

unfoldable pub was_alerted : Str → ℕ → M Bool
unfolding has_alert
was_alerted l p = query (λ db. has_alert l p db.quota_alerts)

-- INSERT OR REPLACE, under the primary key (label, percent).
unfoldable pub mark_alerted : Str → ℕ → M (Unit {0})
unfolding has_alert
mark_alerted l p = exec (λ db. some (
  tt,
  record db {
    quota_alerts =
        if has_alert l p db.quota_alerts then db.quota_alerts else db.quota_alerts ++ (l, p) ∷ [];
  },
))
