-- ===== src/UpstreamService/Changes.antt =====
-- The changes of single upstreams in internal/service/upstream_service.go, under the invariant.
use popu_gate.Prelude.{◌≡◌, refl, Bool, true, false, not, ◌&&◌, Str, Option, none, some, arith}
use popu_gate.Model.Upstream.{Upstream}
use popu_gate.Model.Tables.{Tables}
use popu_gate.Sys.{◌>>◌}
use popu_gate.Sys.Keeps.{Keeps, Keeps-bind, Keeps-pure, Keeps-attempt, Keeps-test_upstream}
use popu_gate.Sys.Ensures.{
  Ensures, ensure_under, ensure_after, ensure_bind, ensure_pure, ensure_raise, ensure_query,
  ensure_guard, ensure_weaken, ensure_write, ensure_checked, Ensures-Keeps, Keeps-Ensures,
}
use popu_gate.UpstreamStore.Validate.{validate, is_shadowsocks}
use popu_gate.UpstreamStore.Rows.{find, columns}
use popu_gate.UpstreamStore.Defs as Store
use popu_gate.UpstreamStore.Valid.{
  plain, update_where-Unique, update_where-all_ok, enabling-all_ok, plain-find,
}
use popu_gate.UpstreamService.Defs.{
  or_not_found, require, update, remove, toggle, allowed_to, clear_if_off, run_initial_health_check,
  test,
}
use popu_gate.UpstreamService.Rules.{
  proxy_on, IsValid, IsValid-of, set_where-IsValid, toggled-ok, columns-name, Allowed,
  ensure_shadowsocks_allowed-Cleared,
}
use popu_gate.UpstreamService.Valid.{
  Keeps-require, clear_health-IsValid, record_health-IsValid, delete-IsValid,
}

with_columns-IsValid :
    (n m : Str) (e : Bool) (u : Upstream) (db : Tables)
    → validate u ≡ true
    → Allowed u db
    → IsValid (Store.with_update n (columns (record u { name = m; enabled = e })) db)
with_columns-IsValid n m e u db v a =
    IsValid-of db _ (update_where-Unique n _ db.upstreams (λ r. refl) a.0.unique) (
      update_where-all_ok (proxy_on db) n _ db.upstreams
        (λ r h. columns-name m e (proxy_on db) u r v a.1 h) a.0.rows_ok)

store_update-IsValid :
    (n m : Str) (e : Bool) (u : Upstream)
    → validate u ≡ true
    → Ensures
        (Allowed u)
        (Store.update n (record u { name = m; enabled = e }))
        (λ _. IsValid)
        IsValid
unfolding Store.update
store_update-IsValid n m e u v =
    ensure_bind
      (ensure_checked {Q = λ _. IsValid} _ _ _ (λ db a h. with_columns-IsValid n m e u db v a)
        (λ db a. a.0))
      (λ found. ensure_guard found _ (λ db h e. h) (λ db h. h))

pub update-IsValid : (n : Str) (u : Upstream) → Keeps IsValid (update n u)
unfolding update
update-IsValid n u = Ensures-Keeps (
    ensure_bind {R = λ _ db. IsValid db × (validate u ≡ true)}
      (ensure_guard (validate u) _ (λ db h e. (h, e)) (λ db h. h))
      (λ _. ensure_under (λ e. ensure_bind (ensure_shadowsocks_allowed-Cleared u) (λ _.
        ensure_after (Keeps-require n) (λ old. store_update-IsValid n old.name old.enabled u e)
          (λ db a. a.0)))))

pub remove-IsValid : (n : Str) → Keeps IsValid (remove n)
unfolding remove
remove-IsValid n = Keeps-bind (Keeps-require n) (λ u. delete-IsValid n)

-- The row of the name, as it was read.
abbrev Known : Str → Upstream → Tables → Type 0
Known n u db = IsValid db × (find n db.upstreams ≡ some u)

or_not_found-Known :
    (n : Str) (o : Option Upstream)
    → Ensures (λ db. IsValid db × (find n db.upstreams ≡ o)) (or_not_found n o) (Known n) IsValid
or_not_found-Known n none = ensure_raise _ (λ db k. k.0)
or_not_found-Known n (some u) = ensure_pure u (λ db k. k)

require-Known : (n : Str) → Ensures IsValid (require n) (Known n) IsValid
unfolding Store.get_by_name
require-Known n =
    ensure_bind {R = λ o db. IsValid db × (find n db.upstreams ≡ o)}
      (ensure_query _ (λ db v. (v, refl)) (λ db v. v)) (or_not_found-Known n)

-- Rows of the name may be enabled.
abbrev pub MayEnable : Str → Tables → Type 0
MayEnable n db = IsValid db × ((proxy_on db && not (plain n db.upstreams)) ≡ false)

may_enable :
    (n : Str) (u : Upstream) (db : Tables)
    → Known n u db
    → (proxy_on db && is_shadowsocks u.kind) ≡ false
    → MayEnable n db
may_enable n u db k c = (k.0, ground (arith, plain-find n db.upstreams u k.0.unique k.1))

enable-IsValid :
    (n : Str) → Ensures (MayEnable n) (Store.update_enabled n true) (λ _. IsValid) IsValid
unfolding Store.update_enabled Store.set_where
enable-IsValid n =
    ensure_write _ _
      (λ db k. IsValid-of db _ (update_where-Unique n _ db.upstreams (λ r. refl) k.0.unique) (
        enabling-all_ok (proxy_on db) n _ db.upstreams
          (λ r h c. toggled-ok true (proxy_on db) r h (ground arith)) k.1 k.0.rows_ok))
      (λ db k. k.0)

disable-IsValid : (n : Str) → Keeps IsValid (Store.update_enabled n false)
unfolding Store.update_enabled
disable-IsValid n =
    set_where-IsValid n _ (λ r. refl) (λ on r h. toggled-ok false on r h (ground arith))

toggle_one-IsValid :
    (n : Str) (b : Bool) (u : Upstream)
    → Ensures
        (Known n u)
        (allowed_to b u >> (Store.update_enabled n b >> clear_if_off b n))
        (λ _. IsValid)
        IsValid
toggle_one-IsValid n true u =
    ensure_bind {R = λ _. MayEnable n}
      (ensure_weaken (λ db k. k) (ensure_shadowsocks_allowed-Cleared u)
        (λ _ db p. may_enable n u db p.0 p.1) (λ db k. k.0))
      (λ _. ensure_bind (enable-IsValid n) (λ _. ensure_pure tt (λ db v. v)))
toggle_one-IsValid n false u =
    ensure_weaken (λ db k. k.0)
      (Keeps-Ensures (
        Keeps-bind (Keeps-pure tt) (λ _.
          Keeps-bind (disable-IsValid n)
            (λ _. Keeps-bind (Keeps-attempt (clear_health-IsValid n)) (λ _. Keeps-pure tt)))))
      (λ _ db v. v) (λ db v. v)

pub toggle-IsValid : (n : Str) (b : Bool) → Keeps IsValid (toggle n b)
unfolding toggle
toggle-IsValid n b = Ensures-Keeps (ensure_bind (require-Known n) (toggle_one-IsValid n b))

pub initial_check-IsValid : (n : Str) (u : Upstream) → Keeps IsValid (run_initial_health_check n u)
unfolding run_initial_health_check
initial_check-IsValid n u =
    Keeps-bind (Keeps-test_upstream u)
      (λ p. Keeps-bind (record_health-IsValid n p) (λ _. Keeps-pure tt))

pub test-IsValid : (n : Str) → Keeps IsValid (test n)
unfolding test
test-IsValid n = Keeps-bind (Keeps-require n) (λ u.
    Keeps-bind (Keeps-test_upstream u)
      (λ p. Keeps-bind (record_health-IsValid n p) (λ _. Keeps-pure p)))
