-- ===== src/UpstreamService/Valid.antt =====
-- `Add` of internal/service/upstream_service.go, and the writes of checks, under the invariant.
use popu_gate.Prelude.{◌≡◌, refl, Bool, true, false, Str, Option, none, some, arith, ℤ, ◌∙◌}
use popu_gate.Model.Upstream.{Upstream}
use popu_gate.Model.Tables.{Tables}
use popu_gate.Sys.{Probe}
use popu_gate.Sys.Keeps.{
  Keeps, Keeps-bind, Keeps-pure, Keeps-raise, Keeps-query, Keeps-now, Keeps-attempt, Keeps-write,
}
use popu_gate.Sys.Ensures.{
  Ensures, ensure_under, ensure_after, ensure_bind, ensure_pure, ensure_guard, ensure_checked,
  Ensures-Keeps,
}
use popu_gate.UpstreamStore.Validate.{validate}
use popu_gate.UpstreamStore.Rows.{inserted}
use popu_gate.UpstreamStore.Defs as Store
use popu_gate.UpstreamStore.Valid.{
  append_row-Unique, delete_where-Unique, append_row-all_ok, delete_where-all_ok,
}
use popu_gate.UpstreamService.Defs.{
  or_not_found, require, or_exists, ensure_free, record_health, add,
}
use popu_gate.UpstreamService.Rules.{
  proxy_on, IsValid, IsValid-of, set_where-IsValid, checked-ok, unchecked-ok, inserted-ok, Allowed,
  ensure_shadowsocks_allowed-Cleared,
}

module _ {I : Tables → Type 0} where
  pub Keeps-get_by_name : (n : Str) → Keeps I (Store.get_by_name n)
  unfolding Store.get_by_name
  Keeps-get_by_name n = Keeps-query _

  Keeps-or_not_found : (n : Str) (o : Option Upstream) → Keeps I (or_not_found n o)
  Keeps-or_not_found n none = Keeps-raise _
  Keeps-or_not_found n (some u) = Keeps-pure u

  pub Keeps-require : (n : Str) → Keeps I (require n)
  Keeps-require n = Keeps-bind (Keeps-get_by_name n) (Keeps-or_not_found n)

  Keeps-or_exists : (n : Str) (o : Option Upstream) → Keeps I (or_exists n o)
  Keeps-or_exists n none = Keeps-pure tt
  Keeps-or_exists n (some u) = Keeps-raise _

  Keeps-ensure_free : (n : Str) → Keeps I (ensure_free n)
  Keeps-ensure_free n = Keeps-bind (Keeps-get_by_name n) (Keeps-or_exists n)

update_health-IsValid :
    (n : Str) (b : Bool) (latency : ℤ) (m : Str) → Keeps IsValid (Store.update_health n b latency m)
unfolding Store.update_health
update_health-IsValid n b latency m =
    Keeps-bind Keeps-now (λ t. set_where-IsValid n _ (λ r. refl) (checked-ok _ b latency m))

pub record_health-IsValid : (n : Str) (p : Probe) → Keeps IsValid (record_health n p)
unfolding record_health
record_health-IsValid n p = Keeps-attempt (update_health-IsValid n _ _ _)

pub clear_health-IsValid : (n : Str) → Keeps IsValid (Store.clear_health n)
unfolding Store.clear_health
clear_health-IsValid n = set_where-IsValid n _ (λ r. refl) unchecked-ok

pub delete-IsValid : (n : Str) → Keeps IsValid (Store.delete n)
unfolding Store.delete
delete-IsValid n = Keeps-write _ _ (λ db v.
    IsValid-of db _ (delete_where-Unique n db.upstreams v.unique)
      (delete_where-all_ok (proxy_on db) n db.upstreams v.rows_ok))

pub with_row-IsValid :
    (u : Upstream) (db : Tables)
    → validate u ≡ true
    → Allowed u db
    → Store.refused u db.upstreams ≡ false
    → IsValid (Store.with_row u db)
with_row-IsValid u db v a free = record {
  unique = append_row-Unique db.upstreams (inserted _ u) (ground arith) a.0.unique;
  rows_ok =
      append_row-all_ok (proxy_on db) db.upstreams (inserted _ u)
        (inserted-ok _ (proxy_on db) u v a.1) a.0.rows_ok;
}

create-IsValid :
    (u : Upstream) → validate u ≡ true → Ensures (Allowed u) (Store.create u) (λ _. IsValid) IsValid
unfolding Store.create
create-IsValid u v =
    ensure_bind
      (ensure_checked {Q = λ _. IsValid} _ _ _ (λ db a free. with_row-IsValid u db v a free)
        (λ db a. a.0))
      (λ i. ensure_pure _ (λ db h. h))

validate-enabled : (u : Upstream) → validate (record u { enabled = true }) ≡ validate u
unfolding validate
validate-enabled u = refl

pub add-IsValid : (u : Upstream) → Keeps IsValid (add u)
unfolding add
add-IsValid u = Ensures-Keeps (
    ensure_bind {R = λ _ db. IsValid db × (validate u ≡ true)}
      (ensure_guard (validate u) _ (λ db h e. (h, e)) (λ db h. h))
      (λ _. ensure_under (λ e. ensure_bind (ensure_shadowsocks_allowed-Cleared u) (λ _.
        ensure_after (Keeps-ensure_free u.name)
          (λ _. create-IsValid (record u { enabled = true }) (validate-enabled u ∙ e))
          (λ db a. a.0)))))
