-- ===== src/UpstreamService/Failover.antt =====
-- What a health check does to the row of its upstream (internal/service/upstream_service.go).
use popu_gate.Prelude.{
  suc, ℤ, ◌≡◌, refl, false, not, ◌&&◌, ◌||◌, Str, List, [], ◌∷◌, some, if◌then◌else◌, arith, ltb,
  Bool-cases, inl, inr,
}
use popu_gate.Model.Upstream.{Upstream}
use popu_gate.Sys.{Sys, Probe, ok, query, exec, now, attempt, test_upstream}
use popu_gate.Sys.Quiet.{Quiet, passed_by}
use popu_gate.SecretStore.{unix}
use popu_gate.UpstreamStore.Rows.{find, update_where}
use popu_gate.UpstreamStore.Defs as Store
use popu_gate.UpstreamService.Defs.{
  resolve_test_result, record_health, failover_row, handle_failover, after_test, check_upstream,
}

set_where-Quiet :
    (n : Str) (f : Upstream → Upstream) (s : Sys)
    → Quiet s.env
    → Store.set_where n f s ≡ (ok tt, passed_by (suc s.ticks) (Store.with_update n f s.db) s)
unfolding Store.set_where exec
set_where-Quiet n f s q = rw (q s.ticks) refl

abbrev reading : Sys → Probe → Upstream → Upstream
reading s p =
    Store.checked (unix (s.env.clock s.ticks)) (resolve_test_result p).0 (resolve_test_result p).1
      (resolve_test_result p).2

pub record_health-Quiet :
    (n : Str) (p : Probe) (s : Sys)
    → Quiet s.env
    → record_health n p s
      ≡ (ok (some tt), passed_by (suc (suc s.ticks)) (Store.with_update n (reading s p) s.db) s)
unfolding record_health Store.update_health attempt now Store.set_where exec
record_health-Quiet n p s q = rw (q (suc s.ticks)) refl

-- The last row of the name decides, and a third failure disables it.
handle_failover-Quiet :
    (n : Str) (r : Upstream) (s : Sys)
    → Quiet s.env
    → find n s.db.upstreams ≡ some r
    → (handle_failover n s).1.db ≡ (
        if ltb r.fail_count 3 || not r.enabled
        then s.db
        else Store.with_update n (Store.disabled_at (unix (s.env.clock (suc s.ticks)))) s.db)
unfolding handle_failover Store.get_by_name query attempt failover_row now
    Store.disable_automatically Store.set_where exec
handle_failover-Quiet n r s q e = elim (Bool-cases (ltb r.fail_count 3 || not r.enabled)) [
  | inl b ↦ rw (q s.ticks, e, b) refl
  | inr b ↦ rw (q s.ticks, e, b, q (suc (suc s.ticks))) refl
]

pub find-update_where :
    (n : Str) (f : Upstream → Upstream) (rs : List Upstream) (r : Upstream)
    → ((x : Upstream) → (f x).name ≡ x.name)
    → find n rs ≡ some r
    → find n (update_where n f rs) ≡ some (f r)
unfolding find update_where
find-update_where n f [] r k h = cc
find-update_where n f (x ∷ rs) r k h = ground (arith, find-update_where n f rs r k, k x)

-- The tables behind a check that fails.
check_upstream-tables :
    (u r : Upstream) (s : Sys)
    → Quiet s.env
    → (resolve_test_result (s.env.probe s.ticks u)).0 ≡ false
    → find u.name s.db.upstreams ≡ some r
    → (at : ℤ) × (latency : ℤ) × (message : Str) × (t : ℤ) × ((check_upstream u s).1.db ≡ (
        if ltb (suc r.fail_count) 3 || not r.enabled
        then Store.with_update u.name (Store.checked at false latency message) s.db
        else Store.with_update u.name
            (Store.disabled_at t)
            (Store.with_update u.name (Store.checked at false latency message) s.db)))
unfolding check_upstream after_test test_upstream
check_upstream-tables u r s q bad e = (
  unix (s.env.clock (suc s.ticks)),
  (resolve_test_result (s.env.probe s.ticks u)).1,
  (resolve_test_result (s.env.probe s.ticks u)).2,
  unix (s.env.clock (suc (suc (suc (suc s.ticks))))),
  rw (record_health-Quiet u.name (s.env.probe s.ticks u) (passed_by (suc s.ticks) s.db s) q, bad)
      (handle_failover-Quiet u.name _ _ q
        (find-update_where u.name _ s.db.upstreams r (λ x. refl) e)),
)

-- While no call of the database fails, a health check that fails for an upstream with a row adds 1
-- to the failures of that row; if the row is enabled and this is its third failure in a row or a
-- later one, it is disabled and marked as automatically disabled, and else both flags stay.
pub check_upstream-failure :
    (u r : Upstream) (s : Sys)
    → Quiet s.env
    → (resolve_test_result (s.env.probe s.ticks u)).0 ≡ false
    → find u.name s.db.upstreams ≡ some r
    → (after : Upstream) × (find u.name (check_upstream u s).1.db.upstreams ≡ some after)
      × (after.fail_count ≡ suc r.fail_count)
      × (after.enabled ≡ (r.enabled && ltb (suc r.fail_count) 3))
      × (after.auto_disabled ≡ (r.auto_disabled || (r.enabled && not (ltb (suc r.fail_count) 3))))
check_upstream-failure u r s q bad e =
    let tables = check_upstream-tables u r s q bad e in
    let failed = Store.checked tables.0 false tables.1 tables.2 in
    let one = find-update_where u.name failed s.db.upstreams r (λ x. refl) e in
    let two =
      find-update_where u.name (Store.disabled_at tables.3)
        (update_where u.name failed s.db.upstreams) (failed r) (λ x. refl) one in
    elim (Bool-cases (ltb (suc r.fail_count) 3 || not r.enabled)) [
      | inl b ↦ (failed r, rw (tables.4, b) one, refl, ground arith, ground arith)
      | inr b ↦ (
        Store.disabled_at tables.3 (failed r),
        rw (tables.4, b) two,
        refl,
        ground arith,
        ground arith,
      )
    ]
