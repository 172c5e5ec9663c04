-- ===== src/Traffic/Flush.antt =====
-- `Flush` of internal/service/traffic_service.go, from the metrics that the engines report.
use popu_gate.Prelude.{
  ℕ, ℤ, pos, ◌+ℤ◌, ◌-ℤ◌, ltb_ℤ, Bool, not, ◌&&◌, ◌||◌, Str, str_eq, List, [], ◌∷◌, ◌++◌, Option,
  none, some, if◌then◌else◌,
}
use popu_gate.Model.Tables.{Tables}
use popu_gate.Model.Traffic.{TrafficSnapshot, HistoryRow}
use popu_gate.Sys.{M, exec, transaction, attempt, now, pure, ◌>>=◌, ◌>>◌}
use popu_gate.SecretStore.{unix}
use popu_gate.Traffic.Store.{
  get_global, update_global, get_all_user_snapshots, flush_instance_traffic,
}

-- `UserLiveMetrics` and `LiveMetrics`: the counters of an engine since it started. The source holds
-- them as floats; they are whole numbers here, as counters of bytes and connections are.
pub record UserLive : Type 0 where
  pub from_client : ℤ
  pub to_client : ℤ
  pub connections : ℤ

pub record Live : Type 0 where
  pub conns_current : ℤ
  pub users : List (Str × UserLive)

-- A counter that went down was reset, and then counts from 0.
unfoldable pub non_negative_delta : ℤ → ℤ → ℤ
non_negative_delta current previous =
    if ltb_ℤ (current -ℤ previous) (pos 0) then current else current -ℤ previous

unfoldable pub snapshot_for : Str → List (Str × (ℤ × ℤ)) → ℤ × ℤ
snapshot_for l [] = (pos 0, pos 0)
snapshot_for l ((k, v) ∷ snaps) = if str_eq k l then v else snapshot_for l snaps

-- What a user's counters add to the row with the readings `prev`.
unfoldable pub user_delta : UserLive → ℤ × ℤ → TrafficSnapshot
unfolding non_negative_delta
user_delta u (prev_in, prev_out) = record {
  bytes_in = non_negative_delta u.from_client prev_in;
  bytes_out = non_negative_delta u.to_client prev_out;
  snap_in = u.from_client;
  snap_out = u.to_client;
}

abbrev pub is_traffic : TrafficSnapshot → Bool
is_traffic d = ltb_ℤ (pos 0) d.bytes_in || ltb_ℤ (pos 0) d.bytes_out

unfoldable pub compute_user_deltas :
    List (Str × UserLive) → List (Str × (ℤ × ℤ)) → List (Str × TrafficSnapshot)
unfolding user_delta snapshot_for
compute_user_deltas [] snaps = []
compute_user_deltas ((l, u) ∷ live) snaps =
    let rest = compute_user_deltas live snaps in
    if is_traffic (user_delta u (snapshot_for l snaps))
    then (l, user_delta u (snapshot_for l snaps)) ∷ rest
    else rest

-- `flushAccumulator`
pub record FlushAccumulator : Type 0 where
  pub total_in : ℤ
  pub total_out : ℤ
  pub conns : ℤ
  pub hist_users : List (Str × (ℤ × ℤ))
  pub snap_in : ℤ
  pub snap_out : ℤ

unfoldable pub add_history : Str → ℤ → ℤ → List (Str × (ℤ × ℤ)) → List (Str × (ℤ × ℤ))
add_history l i o [] = (l, (i, o)) ∷ []
add_history l i o ((k, (a, b)) ∷ users) =
    if str_eq k l then (k, (a +ℤ i, b +ℤ o)) ∷ users else (k, (a, b)) ∷ add_history l i o users

unfoldable pub add_user_deltas : FlushAccumulator → List (Str × TrafficSnapshot) → FlushAccumulator
unfolding add_history
add_user_deltas acc [] = acc
add_user_deltas acc ((l, d) ∷ deltas) =
    add_user_deltas
      (record acc {
        total_in = acc.total_in +ℤ d.bytes_in;
        total_out = acc.total_out +ℤ d.bytes_out;
        hist_users = add_history l d.bytes_in d.bytes_out acc.hist_users;
      })
      deltas

unfoldable pub sum_from : List (Str × UserLive) → ℤ
sum_from [] = pos 0
sum_from ((l, u) ∷ users) = u.from_client +ℤ sum_from users

unfoldable pub sum_to : List (Str × UserLive) → ℤ
sum_to [] = pos 0
sum_to ((l, u) ∷ users) = u.to_client +ℤ sum_to users

unfoldable pub sum_conns : List (Str × UserLive) → ℤ
sum_conns [] = pos 0
sum_conns ((l, u) ∷ users) = u.connections +ℤ sum_conns users

abbrev pub is_zero : ℤ → Bool
is_zero n = not (ltb_ℤ n (pos 0) || ltb_ℤ (pos 0) n)

-- The connections of the engine, or those of its users where it reports none.
abbrev pub connections_of : Live → ℤ
connections_of live =
    if is_zero live.conns_current then sum_conns live.users else live.conns_current

abbrev pub with_readings : Live → FlushAccumulator → FlushAccumulator
with_readings live acc = record acc {
  snap_in = acc.snap_in +ℤ sum_from live.users;
  snap_out = acc.snap_out +ℤ sum_to live.users;
  conns = acc.conns +ℤ connections_of live;
}

abbrev pub or_no_snapshots : Option (List (Str × (ℤ × ℤ))) → List (Str × (ℤ × ℤ))
or_no_snapshots none = []
or_no_snapshots (some snaps) = snaps

abbrev pub if_flushed :
    FlushAccumulator → List (Str × TrafficSnapshot) → Option (Unit {0}) → FlushAccumulator
if_flushed acc deltas none = acc
if_flushed acc deltas (some done) = add_user_deltas acc deltas

unfoldable pub flush_deltas :
    FlushAccumulator → ℕ → List (Str × TrafficSnapshot) → M FlushAccumulator
flush_deltas acc i [] = pure acc
flush_deltas acc i (d ∷ deltas) = do
  done ← attempt (flush_instance_traffic (d ∷ deltas) i)
  pure (if_flushed acc (d ∷ deltas) done)

-- `flushInstance`, from the metrics of the instance; `none` is a failed fetch.
unfoldable pub flush_instance : ℕ → Option Live → FlushAccumulator → M FlushAccumulator
unfolding compute_user_deltas flush_deltas
flush_instance i none acc = pure acc
flush_instance i (some live) acc = do
  snaps ← attempt (get_all_user_snapshots i)
  flush_deltas (with_readings live acc) i (compute_user_deltas live.users (or_no_snapshots snaps))

-- The rows of `InsertHistoryBatch`.
abbrev pub add_row : HistoryRow → Tables → Option (Unit {0} × Tables)
add_row r db = some (tt, record db { traffic_history = db.traffic_history ++ r ∷ [] })

unfoldable pub insert_users : ℤ → List (Str × (ℤ × ℤ)) → M (Unit {0})
insert_users t [] = pure tt
insert_users t ((l, (i, o)) ∷ users) = do
  (if ltb_ℤ (pos 0) i || ltb_ℤ (pos 0) o
      then exec (
          add_row
            (record { timestamp = t; bytes_in = i; bytes_out = o; connections = pos 0; label = l }))
      else pure tt)
  insert_users t users

unfoldable pub insert_history_batch : ℤ → ℤ → ℤ → ℤ → List (Str × (ℤ × ℤ)) → M (Unit {0})
unfolding insert_users
insert_history_batch t i o conns users = transaction do
  (if ltb_ℤ (pos 0) i || (ltb_ℤ (pos 0) o || ltb_ℤ (pos 0) conns)
      then exec (
          add_row (record {
            timestamp = t;
            bytes_in = i;
            bytes_out = o;
            connections = conns;
            label = [];
          }))
      else pure tt)
  insert_users t users

abbrev pub is_empty : FlushAccumulator → Bool
is_empty acc =
    is_zero acc.total_in
    && (is_zero acc.total_out
        && (is_zero acc.conns && (is_zero acc.snap_in && is_zero acc.snap_out)))

abbrev pub record_history : FlushAccumulator → M (Unit {0})
record_history acc =
    if ltb_ℤ (pos 0) acc.total_in || (ltb_ℤ (pos 0) acc.total_out || ltb_ℤ (pos 0) acc.conns)
    then (do
      t ← now
      attempt (insert_history_batch (unix t) acc.total_in acc.total_out acc.conns acc.hist_users)
      pure tt)
    else pure tt

unfoldable pub flush_global : FlushAccumulator → TrafficSnapshot → M (Unit {0})
flush_global acc global = if is_empty acc then pure tt else (do
  attempt (
      update_global (record {
        bytes_in = non_negative_delta acc.snap_in global.snap_in;
        bytes_out = non_negative_delta acc.snap_out global.snap_out;
        snap_in = acc.snap_in;
        snap_out = acc.snap_out;
      }))
  record_history acc)

unfoldable pub flush_each : List (ℕ × Option Live) → FlushAccumulator → M FlushAccumulator
unfolding flush_instance
flush_each [] acc = pure acc
flush_each ((i, live) ∷ instances) acc = do
  acc' ← flush_instance i live acc
  flush_each instances acc'

abbrev pub nothing : FlushAccumulator
nothing = record {
  total_in = pos 0;
  total_out = pos 0;
  conns = pos 0;
  hist_users = [];
  snap_in = pos 0;
  snap_out = pos 0;
}

-- `Flush`, over the enabled instances with what the fetch of their metrics found.
unfoldable pub flush : List (ℕ × Option Live) → M (Unit {0})
unfolding flush_each flush_global
flush instances = do
  global ← get_global
  acc ← flush_each instances nothing
  flush_global acc global
