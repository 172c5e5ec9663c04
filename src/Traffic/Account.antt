-- ===== src/Traffic/Account.antt =====
-- The rows of the users under the statements of a flush (`flushUsers` of internal/store/traffic_store.go).
use popu_gate.Prelude.{
  ℕ, suc, ℤ, pos, ◌+ℤ◌, ◌≡◌, refl, sym, ap, ◌∙◌, false, ◌&&◌, Str, str_eq, str_eq_iff, str_eq_refl,
  List, [], ◌∷◌, Option, none, some, if◌then◌else◌, ◌==◌, arith, Bool-cases, inl, inr, zero_add,
}
use popu_gate.Model.Traffic.{TrafficSnapshot, UserRow}
use popu_gate.Sys.{Sys, ok, exec, transaction}
use popu_gate.Sys.Quiet.{Quiet, passed_by}
use popu_gate.Traffic.Store.{snapshots_of, upsert, flush_users, flush_instance_traffic}
use popu_gate.Traffic.Flush.{UserLive, snapshot_for, user_delta, is_traffic, compute_user_deltas}

abbrev pub no_traffic : TrafficSnapshot
no_traffic = record { bytes_in = pos 0; bytes_out = pos 0; snap_in = pos 0; snap_out = pos 0 }

-- The counters of a label at an instance, 0 where it has no row.
unfoldable pub counters : Str → ℕ → List UserRow → TrafficSnapshot
counters l i [] = no_traffic
counters l i (r ∷ rs) =
    if str_eq r.label l && r.instance_id == i
    then record {
      bytes_in = r.bytes_in;
      bytes_out = r.bytes_out;
      snap_in = r.snap_in;
      snap_out = r.snap_out;
    }
    else counters l i rs

abbrev pub added : TrafficSnapshot → TrafficSnapshot → TrafficSnapshot
added d c = record {
  bytes_in = c.bytes_in +ℤ d.bytes_in;
  bytes_out = c.bytes_out +ℤ d.bytes_out;
  snap_in = d.snap_in;
  snap_out = d.snap_out;
}

pub snapshot_for-snapshots_of :
    (l : Str) (i : ℕ) (rs : List UserRow)
    → snapshot_for l (snapshots_of i rs) ≡ ((counters l i rs).snap_in, (counters l i rs).snap_out)
unfolding snapshot_for snapshots_of counters
snapshot_for-snapshots_of l i [] = refl
snapshot_for-snapshots_of l i (r ∷ rs) = ground (arith, snapshot_for-snapshots_of l i rs)

unfoldable pub upsert_all : List (Str × TrafficSnapshot) → ℕ → List UserRow → List UserRow
upsert_all [] i rs = rs
upsert_all ((l, d) ∷ users) i rs = upsert_all users i (upsert l i d rs)

counters-upsert_other :
    (l k : Str) (i : ℕ) (d : TrafficSnapshot) (rs : List UserRow)
    → str_eq k l ≡ false
    → counters l i (upsert k i d rs) ≡ counters l i rs
unfolding counters upsert
counters-upsert_other l k i d [] h = rw h refl
counters-upsert_other l k i d (r ∷ rs) h = ground (
  arith,
  counters-upsert_other l k i d rs h,
  str_eq_iff r.label k,
  str_eq_iff r.label l,
  str_eq_iff k l,
)

flush_users-Quiet :
    (users : List (Str × TrafficSnapshot)) (i : ℕ) (s : Sys)
    → Quiet s.env
    → (t : ℕ) × (flush_users users i s ≡ (
      ok tt,
      passed_by t (record s.db { traffic_user = upsert_all users i s.db.traffic_user }) s,
    ))
unfolding flush_users exec upsert_all
flush_users-Quiet [] i s q = (s.ticks, refl)
flush_users-Quiet ((l, d) ∷ users) i s q =
    let (t, e) =
      flush_users-Quiet users i
        (passed_by (suc s.ticks) (record s.db { traffic_user = upsert l i d s.db.traffic_user }) s)
        q in
    (t, rw (q s.ticks) e)

pub flush_instance_traffic-Quiet :
    (users : List (Str × TrafficSnapshot)) (i : ℕ) (s : Sys)
    → Quiet s.env
    → (t : ℕ) × (flush_instance_traffic users i s ≡ (
      ok tt,
      passed_by t (record s.db { traffic_user = upsert_all users i s.db.traffic_user }) s,
    ))
unfolding flush_instance_traffic transaction
flush_instance_traffic-Quiet users i s q =
    let (t, e) = flush_users-Quiet users i (passed_by (suc s.ticks) s.db s) q in
    (suc t, rw (q s.ticks, e, q t) refl)

counters-upsert :
    (l : Str) (i : ℕ) (d : TrafficSnapshot) (rs : List UserRow)
    → counters l i (upsert l i d rs) ≡ added d (counters l i rs)
unfolding counters upsert
counters-upsert l i d [] =
    rw (str_eq_refl l, zero_add d.bytes_in, zero_add d.bytes_out) (ground arith)
counters-upsert l i d (r ∷ rs) = ground (arith, counters-upsert l i d rs)

-- The counters of a user in a list of metrics.
unfoldable pub find_user : Str → List (Str × UserLive) → Option UserLive
find_user l [] = none
find_user l ((k, u) ∷ live) = if str_eq k l then some u else find_user l live

-- The users of a Go map are distinct.
abbrev pub Distinct : List (Str × UserLive) → Type 0
Distinct [] = Unit
Distinct ((k, u) ∷ live) = (find_user k live ≡ none) × Distinct live

-- The counters behind a reading of the user, with the snapshot that was stored before it.
abbrev pub counted_from : Option UserLive → ℤ × ℤ → TrafficSnapshot → TrafficSnapshot
counted_from none before c = c
counted_from (some u) before c =
    if is_traffic (user_delta u before) then added (user_delta u before) c else c

first_delta :
    (l k : Str) (i : ℕ) (u : UserLive) (live : List (Str × UserLive)) (snaps : List (Str × (ℤ × ℤ)))
    (rs : List UserRow)
    → upsert_all (compute_user_deltas ((k, u) ∷ live) snaps) i rs
      ≡ upsert_all (compute_user_deltas live snaps) i (
          if is_traffic (user_delta u (snapshot_for k snaps))
          then upsert k i (user_delta u (snapshot_for k snaps)) rs
          else rs)
unfolding compute_user_deltas upsert_all
first_delta l k i u live snaps rs =
    elim (Bool-cases (is_traffic (user_delta u (snapshot_for k snaps)))) [
      | inl e ↦ rw e refl
      | inr e ↦ rw e refl
    ]

nothing_counted :
    (l : Str) (i : ℕ) (snaps : List (Str × (ℤ × ℤ))) (rs : List UserRow)
    → counters l i (upsert_all (compute_user_deltas [] snaps) i rs) ≡ counters l i rs
unfolding compute_user_deltas upsert_all
nothing_counted l i snaps rs = refl

other_delta :
    (l k : Str) (i : ℕ) (u : UserLive) (snaps : List (Str × (ℤ × ℤ))) (rs : List UserRow)
    → str_eq k l ≡ false
    → counters l i (
        if is_traffic (user_delta u (snapshot_for k snaps))
        then upsert k i (user_delta u (snapshot_for k snaps)) rs
        else rs)
      ≡ counters l i rs
other_delta l k i u snaps rs h =
    elim (Bool-cases (is_traffic (user_delta u (snapshot_for k snaps)))) [
      | inl e ↦ rw e (counters-upsert_other l k i _ rs h)
      | inr e ↦ rw e refl
    ]

own_delta :
    (l : Str) (i : ℕ) (u : UserLive) (snaps : List (Str × (ℤ × ℤ))) (rs : List UserRow)
    → counters l i (
        if is_traffic (user_delta u (snapshot_for l snaps))
        then upsert l i (user_delta u (snapshot_for l snaps)) rs
        else rs)
      ≡ counted_from (some u) (snapshot_for l snaps) (counters l i rs)
own_delta l i u snaps rs = elim (Bool-cases (is_traffic (user_delta u (snapshot_for l snaps)))) [
  | inl e ↦ rw e (counters-upsert l i _ rs)
  | inr e ↦ rw e refl
]

pub deltas-counted :
    (l : Str) (i : ℕ) (live : List (Str × UserLive)) (snaps : List (Str × (ℤ × ℤ)))
    (rs : List UserRow)
    → Distinct live
    → counters l i (upsert_all (compute_user_deltas live snaps) i rs)
      ≡ counted_from (find_user l live) (snapshot_for l snaps) (counters l i rs)
unfolding find_user snapshot_for
deltas-counted l i [] snaps rs d = nothing_counted l i snaps rs
deltas-counted l i ((k, u) ∷ live) snaps rs d = elim (Bool-cases (str_eq k l)) [
  | inl e ↦
      rw (first_delta l k i u live snaps rs, (str_eq_iff k l).0 e, str_eq_refl l)
        (deltas-counted l i live snaps _ d.1
          ∙ (rw (sym (ap (λ x. find_user x live) ((str_eq_iff k l).0 e)) ∙ d.0)
              (own_delta l i u snaps rs)))
  | inr e ↦
      rw (first_delta l k i u live snaps rs, e)
        (deltas-counted l i live snaps _ d.1
          ∙ ap (counted_from (find_user l live) (snapshot_for l snaps))
              (other_delta l k i u snaps rs e))
]
