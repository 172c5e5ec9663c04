-- ===== src/UpstreamService/Rules.antt =====
-- The invariant of the upstreams under the operations that an administrator calls.
use popu_gate.Prelude.{
  ◌≡◌, refl, sym, Bool, Bool-cases, inl, inr, true, false, not, ◌&&◌, Str, codes, str_eq, List,
  arith, ℤ,
}
use popu_gate.Model.Upstream.{Upstream}
use popu_gate.Model.Tables.{Tables}
use popu_gate.Sys.Keeps.{Keeps, Keeps-write}
use popu_gate.Sys.Ensures.{
  Ensures, ensure_bind, ensure_pure, ensure_query, ensure_guard, ensure_attempt,
}
use popu_gate.Settings.{lookup, get, or_zero}
use popu_gate.UpstreamStore.Validate.{validate, is_shadowsocks}
use popu_gate.UpstreamStore.Rows.{inserted, columns}
use popu_gate.UpstreamStore.Defs as Store
use popu_gate.UpstreamStore.Valid.{
  Unique, row_ok, all_ok, KeepsName, update_where-Unique, update_where-all_ok,
}
use popu_gate.UpstreamService.Defs.{unless_false, middle_proxy_enabled, ensure_shadowsocks_allowed}

-- The setting use_middle_proxy is anything but the text "false", or is missing.
abbrev pub proxy_on : Tables → Bool
proxy_on db = not (str_eq (or_zero (lookup (codes "use_middle_proxy") db.settings)) (codes "false"))

pub record IsValid (db : Tables) : Type 0 where
  pub unique : Unique db.upstreams
  pub rows_ok : all_ok (proxy_on db) db.upstreams ≡ true

pub IsValid-of :
    (db : Tables) (rows : List Upstream)
    → Unique rows
    → all_ok (proxy_on db) rows ≡ true
    → IsValid (record db { upstreams = rows })
IsValid-of db rows u h = record { unique = u; rows_ok = h }

-- An update of one name that keeps every good row good.
pub set_where-IsValid :
    (n : Str) (f : Upstream → Upstream)
    → KeepsName f
    → ((on : Bool) (r : Upstream) → row_ok on r ≡ true → row_ok on (f r) ≡ true)
    → Keeps IsValid (Store.set_where n f)
unfolding Store.set_where
set_where-IsValid n f k ok = Keeps-write _ _ (λ db v.
    IsValid-of db _ (update_where-Unique n f db.upstreams k v.unique)
      (update_where-all_ok (proxy_on db) n f db.upstreams (ok (proxy_on db)) v.rows_ok))

-- A reading of the health does not touch what the invariant reads.
pub checked-ok :
    (at : ℤ) (b : Bool) (latency : ℤ) (m : Str) (on : Bool) (r : Upstream)
    → row_ok on r ≡ true
    → row_ok on (Store.checked at b latency m r) ≡ true
unfolding validate
checked-ok at b latency m on r h = h

pub unchecked-ok :
    (on : Bool) (r : Upstream) → row_ok on r ≡ true → row_ok on (Store.unchecked r) ≡ true
unfolding validate
unchecked-ok on r h = h

pub disabled_at-ok :
    (at : ℤ) (on : Bool) (r : Upstream)
    → row_ok on r ≡ true
    → row_ok on (Store.disabled_at at r) ≡ true
unfolding validate
disabled_at-ok at on r h = ground arith

pub recovered-ok :
    (on : Bool) (r : Upstream)
    → row_ok on r ≡ true
    → (on && is_shadowsocks r.kind) ≡ false
    → row_ok on (Store.recovered r) ≡ true
unfolding validate
recovered-ok on r h k = ground arith

pub toggled-ok :
    (b : Bool) (on : Bool) (r : Upstream)
    → row_ok on r ≡ true
    → (on && (is_shadowsocks r.kind && b)) ≡ false
    → row_ok on (Store.toggled b r) ≡ true
unfolding validate
toggled-ok b on r h k = ground arith

pub inserted-ok :
    (i : _) (on : Bool) (u : Upstream)
    → validate u ≡ true
    → (on && is_shadowsocks u.kind) ≡ false
    → row_ok on (inserted i u) ≡ true
unfolding validate
inserted-ok i on u h k = ground arith

-- The name of the struct is not written, so it does not matter.
pub columns-name :
    (n : Str) (e : Bool) (on : Bool) (u r : Upstream)
    → validate u ≡ true
    → (on && is_shadowsocks u.kind) ≡ false
    → row_ok on r ≡ true
    → row_ok on (columns (record u { name = n; enabled = e }) r) ≡ true
unfolding validate
columns-name n e on u r v k h = ground arith

pub middle_proxy_enabled-lem :
    {P : Tables → Type 0}
    → Ensures P middle_proxy_enabled (λ b db. P db × (b ≡ false → proxy_on db ≡ false)) P
unfolding middle_proxy_enabled get
middle_proxy_enabled-lem {P = P} =
    ensure_bind {R = λ v db. P db × (unless_false v ≡ false → proxy_on db ≡ false)}
      (ensure_attempt
        {Q = λ v db. P db × (v ≡ or_zero (lookup (codes "use_middle_proxy") db.settings))} {F = P}
        (ensure_query _ (λ db p. (p, refl)) (λ db p. p)) (λ v db q. (q.0, λ e. rw (sym q.1) e))
        (λ db p. (p, λ e. ground arith)))
      (λ v. ensure_pure _ (λ db q. q))

-- What the guard on shadowsocks establishes.
abbrev pub Cleared : Upstream → Tables → Type 0
Cleared u db = (proxy_on db && is_shadowsocks u.kind) ≡ false

pub ensure_shadowsocks_allowed-Cleared :
    {P : Tables → Type 0} (u : Upstream)
    → Ensures P (ensure_shadowsocks_allowed u) (λ _ db. P db × Cleared u db) P
unfolding ensure_shadowsocks_allowed
ensure_shadowsocks_allowed-Cleared {P = P} u = elim (Bool-cases (is_shadowsocks u.kind)) [
  | inl e ↦ rw e (
      ensure_bind middle_proxy_enabled-lem (λ on.
        ensure_guard {Q = λ _ db. P db × ((proxy_on db && true) ≡ false)} (not on) _
          (λ db p h. (p.0, ground (arith, p.1))) (λ db p. p.0)))
  | inr e ↦ rw e (ensure_pure tt (λ db v. (v, ground arith)))
]

abbrev pub Allowed : Upstream → Tables → Type 0
Allowed u db = IsValid db × Cleared u db
