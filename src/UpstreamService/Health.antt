-- ===== src/UpstreamService/Health.antt =====
-- `CheckAllUpstreams` under the invariant, with the list of upstreams that it reads first.
use popu_gate.Prelude.{
  ◌≡◌, refl, Bool, true, false, ◌&&◌, ◌||◌, Str, str_eq_iff, List, [], ◌∷◌, Option, none, some,
  arith, ℤ, ◌∙◌,
}
use popu_gate.Model.Upstream.{Upstream}
use popu_gate.Model.Tables.{Tables}
use popu_gate.Sys.{Probe}
use popu_gate.Sys.Keeps.{
  Keeps, Keeps-bind, Keeps-pure, Keeps-now, Keeps-if, Keeps-attempt, Keeps-test_upstream,
  Keeps-write,
}
use popu_gate.Sys.Ensures.{
  Ensures, ensure_bind, ensure_pure, ensure_query, ensure_weaken, ensure_attempt, ensure_write,
  Ensures-Keeps, Keeps-Ensures,
}
use popu_gate.UpstreamStore.Validate.{is_shadowsocks}
use popu_gate.UpstreamStore.Rows.{has_name, update_where}
use popu_gate.UpstreamStore.Defs as Store
use popu_gate.UpstreamStore.Valid.{
  Unique, row_ok, plain, KeepsKey, update_where-Unique, update_where-all_ok, enabling-all_ok,
  plain-absent, plain-update_where,
}
use popu_gate.UpstreamService.Defs.{
  record_health, failover_row, failover_found, handle_failover, recover_if, handle_auto_recovery,
  after_result, after_test, check_upstream, check_each, check_all_upstreams,
}
use popu_gate.UpstreamService.Rules.{
  proxy_on, IsValid, IsValid-of, checked-ok, disabled_at-ok, recovered-ok, Cleared,
  ensure_shadowsocks_allowed-Cleared,
}
use popu_gate.UpstreamService.Valid.{Keeps-get_by_name}

-- What the list still says of the rows: a name that it shows with another type has no
-- shadowsocks row.
unfoldable snapshot : List Upstream → List Upstream → Bool
snapshot [] rows = true
snapshot (u ∷ us) rows = (is_shadowsocks u.kind || plain u.name rows) && snapshot us rows

snapshot-cons :
    (us : List Upstream) (r : Upstream) (rows : List Upstream)
    → has_name r.name us ≡ false
    → snapshot us rows ≡ true
    → snapshot us (r ∷ rows) ≡ true
unfolding snapshot has_name plain
snapshot-cons [] r rows h k = refl
snapshot-cons (u ∷ us) r rows h k =
    ground (arith, snapshot-cons us r rows, str_eq_iff u.name r.name, str_eq_iff r.name u.name)

snapshot_self : (rows : List Upstream) → Unique rows → snapshot rows rows ≡ true
unfolding snapshot plain
snapshot_self [] u = refl
snapshot_self (r ∷ rs) u =
    ground (arith, snapshot-cons rs r rs u.0 (snapshot_self rs u.1), plain-absent r.name rs u.0)

snapshot-update_where :
    (us : List Upstream) (n : Str) (f : Upstream → Upstream) (rows : List Upstream)
    → KeepsKey f
    → snapshot us (update_where n f rows) ≡ snapshot us rows
unfolding snapshot
snapshot-update_where [] n f rows k = refl
snapshot-update_where (u ∷ us) n f rows k =
    ground (arith, snapshot-update_where us n f rows k, plain-update_where u.name n f rows k)

abbrev Listed : List Upstream → Tables → Type 0
Listed us db = IsValid db × (snapshot us db.upstreams ≡ true)

set_where-Listed :
    (us : List Upstream) (n : Str) (f : Upstream → Upstream)
    → KeepsKey f
    → ((on : Bool) (r : Upstream) → row_ok on r ≡ true → row_ok on (f r) ≡ true)
    → Keeps (Listed us) (Store.set_where n f)
unfolding Store.set_where
set_where-Listed us n f k ok = Keeps-write _ _ (λ db v. (
  IsValid-of db _ (update_where-Unique n f db.upstreams (λ r. (k r).0) v.0.unique)
      (update_where-all_ok (proxy_on db) n f db.upstreams (ok (proxy_on db)) v.0.rows_ok),
  snapshot-update_where us n f db.upstreams k ∙ v.1,
))

module _ (us : List Upstream) where
  record_health-Listed : (n : Str) (p : Probe) → Keeps (Listed us) (record_health n p)
  unfolding record_health Store.update_health
  record_health-Listed n p =
      Keeps-attempt (
        Keeps-bind Keeps-now
          (λ t. set_where-Listed us n _ (λ r. (refl, refl)) (checked-ok _ _ _ _)))

  disable-Listed : (n : Str) (t : ℤ) → Keeps (Listed us) (Store.disable_automatically n t)
  unfolding Store.disable_automatically
  disable-Listed n t = set_where-Listed us n _ (λ r. (refl, refl)) (disabled_at-ok t)

  failover_found-Listed :
      (n : Str) (o : Option (Option Upstream)) → Keeps (Listed us) (failover_found n o)
  unfolding failover_row
  failover_found-Listed n none = Keeps-pure tt
  failover_found-Listed n (some none) = Keeps-pure tt
  failover_found-Listed n (some (some r)) = Keeps-if _ (Keeps-pure tt) (
      Keeps-bind Keeps-now
        (λ t. Keeps-bind (Keeps-attempt (disable-Listed n _)) (λ _. Keeps-pure tt)))

  handle_failover-Listed : (n : Str) → Keeps (Listed us) (handle_failover n)
  unfolding handle_failover
  handle_failover-Listed n =
      Keeps-bind (Keeps-attempt (Keeps-get_by_name n)) (failover_found-Listed n)

abbrev Recovery : Upstream → List Upstream → Option (Unit {0}) → Tables → Type 0
Recovery u us none db = Listed (u ∷ us) db
Recovery u us (some allowed) db = Listed (u ∷ us) db × Cleared u db

enable-Listed :
    (u : Upstream) (us : List Upstream)
    → Ensures
        (λ db. Listed (u ∷ us) db × Cleared u db)
        (Store.enable_automatically u.name)
        (λ _. Listed (u ∷ us))
        (Listed (u ∷ us))
unfolding Store.enable_automatically Store.set_where snapshot
enable-Listed u us =
    ensure_write _ _
      (λ db p. (
        IsValid-of db _ (update_where-Unique u.name _ db.upstreams (λ r. refl) p.0.0.unique) (
            enabling-all_ok (proxy_on db) u.name _ db.upstreams
              (λ r h c. recovered-ok (proxy_on db) r h c) (ground (arith, p.0.1, p.1))
              p.0.0.rows_ok),
        snapshot-update_where (u ∷ us) u.name _ db.upstreams (λ r. (refl, refl)) ∙ p.0.1,
      ))
      (λ db p. p.0)

recover_if-Listed :
    (u : Upstream) (us : List Upstream) (o : Option (Unit {0}))
    → Ensures (Recovery u us o) (recover_if u o) (λ _. Listed (u ∷ us)) (Listed (u ∷ us))
recover_if-Listed u us none = ensure_pure tt (λ db p. p)
recover_if-Listed u us (some allowed) =
    ensure_bind {R = λ _. Listed (u ∷ us)}
      (ensure_attempt (enable-Listed u us) (λ _ db h. h) (λ db h. h))
      (λ _. ensure_pure tt (λ db p. p))

handle_auto_recovery-Listed :
    (u : Upstream) (us : List Upstream) → Keeps (Listed (u ∷ us)) (handle_auto_recovery u)
unfolding handle_auto_recovery
handle_auto_recovery-Listed u us = Ensures-Keeps (
    ensure_bind {R = Recovery u us}
      (ensure_attempt (ensure_shadowsocks_allowed-Cleared u) (λ _ db h. h) (λ db h. h))
      (recover_if-Listed u us))

after_result-Listed :
    (u : Upstream) (us : List Upstream) (b : Bool) → Keeps (Listed (u ∷ us)) (after_result u b)
after_result-Listed u us false = handle_failover-Listed (u ∷ us) u.name
after_result-Listed u us true = Keeps-if _ (handle_auto_recovery-Listed u us) (Keeps-pure tt)

check_upstream-Listed :
    (u : Upstream) (us : List Upstream) → Keeps (Listed (u ∷ us)) (check_upstream u)
unfolding check_upstream after_test
check_upstream-Listed u us =
    Keeps-bind (Keeps-test_upstream u)
      (λ p. Keeps-bind (record_health-Listed (u ∷ us) u.name p) (λ _. after_result-Listed u us _))

later : (u : Upstream) (us : List Upstream) (db : Tables) → Listed (u ∷ us) db → Listed us db
unfolding snapshot
later u us db h = (h.0, ground (arith, h.1))

check_each-IsValid :
    (us : List Upstream) → Ensures (Listed us) (check_each us) (λ _. IsValid) IsValid
unfolding check_each
check_each-IsValid [] = ensure_pure tt (λ db p. p.0)
check_each-IsValid (u ∷ us) =
    ensure_bind {R = λ _. Listed us}
      (ensure_weaken (λ db p. p)
        (Keeps-Ensures (Keeps-if _ (Keeps-pure tt) (check_upstream-Listed u us)))
        (λ _ db p. later u us db p) (λ db p. p.0))
      (λ _. check_each-IsValid us)

pub check_all-IsValid : Keeps IsValid check_all_upstreams
unfolding check_all_upstreams Store.list
check_all-IsValid = Ensures-Keeps (
    ensure_bind {R = Listed}
      (ensure_query _ (λ db v. (v, snapshot_self db.upstreams v.unique)) (λ db v. v))
      (λ us. check_each-IsValid us))
