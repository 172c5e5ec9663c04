-- ===== src/UpstreamService/Recovery.antt =====
-- What a health check that passes does to the row of its upstream.
use popu_gate.Prelude.{
  suc, ◌≡◌, refl, Bool, true, false, not, ◌&&◌, ◌||◌, codes, str_eq, some, if◌then◌else◌, arith,
  Bool-cases, inl, inr, ap, ◌∙◌,
}
use popu_gate.Model.Upstream.{Upstream}
use popu_gate.Sys.{Sys, pure, query, exec, attempt, test_upstream}
use popu_gate.Sys.Quiet.{Quiet, passed_by}
use popu_gate.SecretStore.{unix}
use popu_gate.Settings.{lookup, get, or_zero}
use popu_gate.UpstreamStore.Validate.{is_shadowsocks}
use popu_gate.UpstreamStore.Rows.{find, update_where}
use popu_gate.UpstreamStore.Defs as Store
use popu_gate.UpstreamService.Defs.{
  resolve_test_result, middle_proxy_enabled, ensure_shadowsocks_allowed, handle_auto_recovery,
  after_test, check_upstream,
}
use popu_gate.UpstreamService.Rules.{proxy_on}
use popu_gate.UpstreamService.Failover.{record_health-Quiet, find-update_where}

handle_auto_recovery-Quiet :
    (u : Upstream) (s : Sys)
    → Quiet s.env
    → (handle_auto_recovery u s).1.db ≡ (
        if proxy_on s.db && is_shadowsocks u.kind
        then s.db
        else Store.with_update u.name Store.recovered s.db)
unfolding handle_auto_recovery ensure_shadowsocks_allowed middle_proxy_enabled get query attempt
    Store.enable_automatically Store.set_where exec
handle_auto_recovery-Quiet u s q = elim (Bool-cases (is_shadowsocks u.kind)) [
  | inl k ↦
      elim (Bool-cases
        (str_eq (or_zero (lookup (codes "use_middle_proxy") s.db.settings)) (codes "false"))) [
          | inl b ↦ rw (k, q s.ticks, b, q (suc s.ticks)) refl
          | inr b ↦ rw (k, q s.ticks, b) refl
        ]
  | inr k ↦ elim (Bool-cases (proxy_on s.db)) [
    | inl b ↦ rw (k, q s.ticks, b) refl
    | inr b ↦ rw (k, q s.ticks, b) refl
  ]
]

recovery_if-Quiet :
    (b : Bool) (u : Upstream) (s : Sys)
    → Quiet s.env
    → ((if b then handle_auto_recovery u else pure tt) s).1.db ≡ (
        if b && not (proxy_on s.db && is_shadowsocks u.kind)
        then Store.with_update u.name Store.recovered s.db
        else s.db)
recovery_if-Quiet false u s q = refl
recovery_if-Quiet true u s q = elim (Bool-cases (proxy_on s.db && is_shadowsocks u.kind)) [
  | inl b ↦ rw (handle_auto_recovery-Quiet u s q, b) refl
  | inr b ↦ rw (handle_auto_recovery-Quiet u s q, b) refl
]

-- The tables behind a check that passes.
check_upstream-passed :
    (u : Upstream) (s : Sys)
    → Quiet s.env
    → (resolve_test_result (s.env.probe s.ticks u)).0 ≡ true
    → (f : Upstream → Upstream) × ((r : Upstream)
        → f r ≡ Store.checked (f r).last_check_at true (f r).latency_ms (f r).last_error r)
      × ((check_upstream u s).1.db ≡ (
          if u.auto_disabled && not (proxy_on s.db && is_shadowsocks u.kind)
          then Store.with_update u.name Store.recovered (Store.with_update u.name f s.db)
          else Store.with_update u.name f s.db))
unfolding check_upstream after_test test_upstream
check_upstream-passed u s q good =
    let p = s.env.probe s.ticks u in
    let health = record_health-Quiet u.name p (passed_by (suc s.ticks) s.db s) q in
    let f =
      Store.checked (unix (s.env.clock (suc s.ticks))) true (resolve_test_result p).1
        (resolve_test_result p).2 in
    let behind = passed_by (suc (suc (suc s.ticks))) (Store.with_update u.name f s.db) s in
    (f, λ r. refl, rw (health, good) (recovery_if-Quiet u.auto_disabled u behind q))

-- While no call of the database fails, a health check that passes for an upstream with a row sets
-- the failures of that row to 0; if the upstream is listed as automatically disabled, its row is
-- enabled again and loses that mark, unless it is a shadowsocks upstream while the Middle-Proxy is
-- on: then, as where it is not automatically disabled, both flags stay.
pub check_upstream-success :
    (u r : Upstream) (s : Sys)
    → Quiet s.env
    → (resolve_test_result (s.env.probe s.ticks u)).0 ≡ true
    → find u.name s.db.upstreams ≡ some r
    → (after : Upstream) × (find u.name (check_upstream u s).1.db.upstreams ≡ some after)
      × (after.fail_count ≡ 0)
      × (after.enabled
          ≡ (r.enabled || (u.auto_disabled && not (proxy_on s.db && is_shadowsocks u.kind))))
      × (after.auto_disabled ≡ (
          r.auto_disabled && not (u.auto_disabled && not (proxy_on s.db && is_shadowsocks u.kind))))
check_upstream-success u r s q good e =
    let passed = check_upstream-passed u s q good in
    let f = passed.0 in
    let same = passed.1 in
    let one = find-update_where u.name f s.db.upstreams r (λ x. ap (λ y. y.name) (same x)) e in
    let two =
      find-update_where u.name Store.recovered (update_where u.name f s.db.upstreams) (f r)
        (λ x. refl) one in
    elim (Bool-cases (u.auto_disabled && not (proxy_on s.db && is_shadowsocks u.kind))) [
      | inl b ↦ (
        Store.recovered (f r),
        rw (passed.2, b) two,
        refl,
        rw b (ground arith),
        rw b (ground arith),
      )
      | inr b ↦ (
        f r,
        rw (passed.2, b) one,
        ap (λ y. y.fail_count) (same r),
        rw b (ap (λ y. y.enabled) (same r) ∙ ground arith),
        rw b (ap (λ y. y.auto_disabled) (same r) ∙ ground arith),
      )
    ]
