-- ===== src/Traffic/Counters.antt =====
-- `flushInstance` of internal/service/traffic_service.go against an account that does not use the code.
use popu_gate.Prelude.{
  ℕ, suc, ℤ, pos, ◌+ℤ◌, ◌-ℤ◌, ltb_ℤ, leb_ℤ, -ℤ_parts, ◌||◌, ◌≡◌, refl, Str, List, [], ◌∷◌, Option,
  none, some, if◌then◌else◌, arith,
}
use popu_gate.Model.Traffic.{TrafficSnapshot, UserRow}
use popu_gate.Sys.{Sys, query, attempt}
use popu_gate.Sys.Quiet.{Quiet, passed_by}
use popu_gate.Traffic.Store.{snapshots_of, get_all_user_snapshots}
use popu_gate.Traffic.Flush.{
  UserLive, Live, non_negative_delta, user_delta, compute_user_deltas, FlushAccumulator,
  flush_deltas, with_readings, flush_instance,
}
use popu_gate.Traffic.Account.{
  counters, upsert_all, flush_instance_traffic-Quiet, find_user, Distinct, counted_from,
  deltas-counted, snapshot_for-snapshots_of,
}

nothing_upserted : (i : ℕ) (rs : List UserRow) → rs ≡ upsert_all [] i rs
unfolding upsert_all
nothing_upserted i rs = refl

flush_deltas-Quiet :
    (acc : FlushAccumulator) (i : ℕ) (ds : List (Str × TrafficSnapshot)) (s : Sys)
    → Quiet s.env
    → (flush_deltas acc i ds s).1.db.traffic_user ≡ upsert_all ds i s.db.traffic_user
unfolding flush_deltas attempt
flush_deltas-Quiet acc i [] s q = nothing_upserted i s.db.traffic_user
flush_deltas-Quiet acc i (d ∷ ds) s q =
    let (t, e) = flush_instance_traffic-Quiet (d ∷ ds) i s q in rw e refl

-- What a direction of a reading brings: what is above the snapshot, or all of a counter that fell.
abbrev pub gain : ℤ → ℤ → ℤ
gain cur prev = if leb_ℤ prev cur then cur -ℤ prev else cur

-- The counters behind a reading of the user: what each direction brings is added and the reading
-- stored, unless neither brings anything.
abbrev pub counted : Option UserLive → TrafficSnapshot → TrafficSnapshot
counted none c = c
counted (some u) c =
    if ltb_ℤ (pos 0) (gain u.from_client c.snap_in) || ltb_ℤ (pos 0) (gain u.to_client c.snap_out)
    then record {
      bytes_in = c.bytes_in +ℤ gain u.from_client c.snap_in;
      bytes_out = c.bytes_out +ℤ gain u.to_client c.snap_out;
      snap_in = u.from_client;
      snap_out = u.to_client;
    }
    else c

non_negative_delta-gain : (cur prev : ℤ) → non_negative_delta cur prev ≡ gain cur prev
unfolding non_negative_delta
non_negative_delta-gain cur prev = ground (arith, -ℤ_parts cur prev)

counted_from-counted :
    (o : Option UserLive) (c : TrafficSnapshot)
    → counted_from o (c.snap_in, c.snap_out) c ≡ counted o c
unfolding user_delta
counted_from-counted none c = refl
counted_from-counted (some u) c =
    rw
      (
        non_negative_delta-gain u.from_client c.snap_in,
        non_negative_delta-gain u.to_client c.snap_out,
      )
      refl

-- While no call of the database fails, a flush of the metrics of one instance, with distinct
-- users, adds to the counters of each label, in each direction, what its reading is above the
-- stored snapshot, or the whole reading where it is below, and stores the reading; where neither
-- direction brings more than 0, and without a reading, the counters stay.
pub flush_instance-counters :
    (i : ℕ) (live : Live) (acc : FlushAccumulator) (s : Sys) (l : Str)
    → Quiet s.env
    → Distinct live.users
    → counters l i (flush_instance i (some live) acc s).1.db.traffic_user
      ≡ counted (find_user l live.users) (counters l i s.db.traffic_user)
unfolding flush_instance get_all_user_snapshots query attempt
flush_instance-counters i live acc s l q d =
    rw
      (
        q s.ticks,
        flush_deltas-Quiet (with_readings live acc) i
            (compute_user_deltas live.users (snapshots_of i s.db.traffic_user))
            (passed_by (suc s.ticks) s.db s) q,
        deltas-counted l i live.users (snapshots_of i s.db.traffic_user) s.db.traffic_user d,
        snapshot_for-snapshots_of l i s.db.traffic_user,
      )
      (counted_from-counted (find_user l live.users) (counters l i s.db.traffic_user))
