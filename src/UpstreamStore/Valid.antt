-- ===== src/UpstreamStore/Valid.antt =====
-- The invariant of the rows of `upstreams`, and the row statements under it.
use popu_gate.Prelude.{
  ◌≡◌, refl, Bool, true, false, not, ◌&&◌, Str, str_eq, str_eq_iff, List, [], ◌∷◌, some,
  if◌then◌else◌, arith,
}
use popu_gate.Model.Upstream.{Upstream}
use popu_gate.UpstreamStore.Validate.{validate, is_shadowsocks}
use popu_gate.UpstreamStore.Rows.{find, has_name, update_where, delete_where, append_row}

-- UNIQUE(name)
abbrev pub Unique : List Upstream → Type 0
Unique [] = Unit
Unique (r ∷ rs) = (has_name r.name rs ≡ false) × Unique rs

-- Stored rows pass `Validate`, an automatically disabled one is not enabled, and with the
-- Middle-Proxy (`on`) no shadowsocks upstream is enabled (ADR-001).
abbrev pub row_ok : Bool → Upstream → Bool
row_ok on r =
    validate r
    && (not (r.auto_disabled && r.enabled) && not (on && (is_shadowsocks r.kind && r.enabled)))

unfoldable pub all_ok : Bool → List Upstream → Bool
all_ok on [] = true
all_ok on (r ∷ rs) = row_ok on r && all_ok on rs

-- No row of this name is a shadowsocks upstream.
unfoldable pub plain : Str → List Upstream → Bool
plain n [] = true
plain n (r ∷ rs) = not (str_eq r.name n && is_shadowsocks r.kind) && plain n rs

-- The update writes neither the name nor the type.
abbrev pub KeepsKey : (Upstream → Upstream) → Type 0
KeepsKey f = (r : Upstream) → ((f r).name ≡ r.name) × ((f r).kind ≡ r.kind)

abbrev pub KeepsName : (Upstream → Upstream) → Type 0
KeepsName f = (r : Upstream) → (f r).name ≡ r.name

has_name-update_where :
    (j n : Str) (f : Upstream → Upstream) (rs : List Upstream)
    → KeepsName f
    → has_name j (update_where n f rs) ≡ has_name j rs
unfolding has_name update_where
has_name-update_where j n f [] k = refl
has_name-update_where j n f (r ∷ rs) k = ground (arith, has_name-update_where j n f rs k, k r)

pub update_where-Unique :
    (n : Str) (f : Upstream → Upstream) (rs : List Upstream)
    → KeepsName f
    → Unique rs
    → Unique (update_where n f rs)
unfolding update_where
update_where-Unique n f [] k u = tt
update_where-Unique n f (r ∷ rs) k u =
    ground (arith, update_where-Unique n f rs k u.1, has_name-update_where r.name n f rs k, k r)

has_name-append_row :
    (j : Str) (rs : List Upstream) (r : Upstream)
    → has_name j (append_row rs r) ≡ (if has_name j rs then true else str_eq r.name j)
unfolding has_name append_row
has_name-append_row j [] r = ground arith
has_name-append_row j (x ∷ rs) r = ground (arith, has_name-append_row j rs r)

pub append_row-Unique :
    (rs : List Upstream) (r : Upstream)
    → has_name r.name rs ≡ false
    → Unique rs
    → Unique (append_row rs r)
unfolding append_row has_name
append_row-Unique [] r h u = (refl, tt)
append_row-Unique (x ∷ rs) r h u = ground (
  arith,
  append_row-Unique rs r,
  has_name-append_row x.name rs r,
  str_eq_iff x.name r.name,
  str_eq_iff r.name x.name,
)

has_name-delete_where :
    (j n : Str) (rs : List Upstream)
    → has_name j rs ≡ false
    → has_name j (delete_where n rs) ≡ false
unfolding has_name delete_where
has_name-delete_where j n [] h = refl
has_name-delete_where j n (r ∷ rs) h = ground (arith, has_name-delete_where j n rs)

pub delete_where-Unique : (n : Str) (rs : List Upstream) → Unique rs → Unique (delete_where n rs)
unfolding delete_where
delete_where-Unique n [] u = tt
delete_where-Unique n (r ∷ rs) u =
    ground (arith, delete_where-Unique n rs u.1, has_name-delete_where r.name n rs)

pub update_where-all_ok :
    (on : Bool) (n : Str) (f : Upstream → Upstream) (rs : List Upstream)
    → ((r : Upstream) → row_ok on r ≡ true → row_ok on (f r) ≡ true)
    → all_ok on rs ≡ true
    → all_ok on (update_where n f rs) ≡ true
unfolding all_ok update_where
update_where-all_ok on n f [] k h = refl
update_where-all_ok on n f (r ∷ rs) k h = ground (arith, update_where-all_ok on n f rs k, k r)

pub append_row-all_ok :
    (on : Bool) (rs : List Upstream) (r : Upstream)
    → row_ok on r ≡ true
    → all_ok on rs ≡ true
    → all_ok on (append_row rs r) ≡ true
unfolding all_ok append_row
append_row-all_ok on [] r k h = ground arith
append_row-all_ok on (x ∷ rs) r k h = ground (arith, append_row-all_ok on rs r k)

pub delete_where-all_ok :
    (on : Bool) (n : Str) (rs : List Upstream)
    → all_ok on rs ≡ true
    → all_ok on (delete_where n rs) ≡ true
unfolding all_ok delete_where
delete_where-all_ok on n [] h = refl
delete_where-all_ok on n (r ∷ rs) h = ground (arith, delete_where-all_ok on n rs)

-- Enabling the rows of a name is safe without the Middle-Proxy, or where none is shadowsocks.
pub enabling-all_ok :
    (on : Bool) (n : Str) (f : Upstream → Upstream) (rs : List Upstream)
    → ((r : Upstream)
        → row_ok on r ≡ true
        → (on && is_shadowsocks r.kind) ≡ false
        → row_ok on (f r) ≡ true)
    → (on && not (plain n rs)) ≡ false
    → all_ok on rs ≡ true
    → all_ok on (update_where n f rs) ≡ true
unfolding all_ok update_where plain
enabling-all_ok on n f [] k p h = refl
enabling-all_ok on n f (r ∷ rs) k p h = ground (arith, enabling-all_ok on n f rs k, k r)

pub plain-update_where :
    (j n : Str) (f : Upstream → Upstream) (rs : List Upstream)
    → KeepsKey f
    → plain j (update_where n f rs) ≡ plain j rs
unfolding plain update_where
plain-update_where j n f [] k = refl
plain-update_where j n f (r ∷ rs) k =
    ground (arith, plain-update_where j n f rs k, (k r).0, (k r).1)

pub plain-absent : (n : Str) (rs : List Upstream) → has_name n rs ≡ false → plain n rs ≡ true
unfolding plain has_name
plain-absent n [] h = refl
plain-absent n (r ∷ rs) h = ground (arith, plain-absent n rs)

-- With distinct names, the row that is found tells the type of the name.
pub plain-find :
    (n : Str) (rs : List Upstream) (u : Upstream)
    → Unique rs
    → find n rs ≡ some u
    → is_shadowsocks u.kind ≡ false
    → plain n rs ≡ true
unfolding plain find
plain-find n [] u q h k = refl
plain-find n (r ∷ rs) u q h k =
    ground (arith, plain-find n rs u q.1, plain-absent n rs, str_eq_iff r.name n)
