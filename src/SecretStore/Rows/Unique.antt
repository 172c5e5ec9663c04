-- ===== src/SecretStore/Rows/Unique.antt =====
-- Rows with distinct labels, and what the statements do to them.
use popu_gate.Prelude.{
  ℕ, suc, ◌+◌, ◌≤◌, ◌≡◌, refl, true, false, Str, str_eq, str_eq_iff, List, [], ◌∷◌, some, arith,
  length, ap, Bool-cases, inl, inr, if◌then◌else◌, ◌&&◌, not,
}
use popu_gate.Model.Secret.{Secret}
use popu_gate.SecretStore.Rows.{
  find, has_label, update_where, delete_where, append_row, enabled_rows, disable_id,
}

-- UNIQUE(label)
abbrev pub Unique : List Secret → Type 0
Unique [] = Unit
Unique (r ∷ rs) = (has_label r.label rs ≡ false) × Unique rs

-- The update writes no label.
abbrev pub KeepsLabel : (Secret → Secret) → Type 0
KeepsLabel f = (r : Secret) → (f r).label ≡ r.label

pub update_where-absent :
    (l : Str) (f : Secret → Secret) (rs : List Secret)
    → has_label l rs ≡ false
    → update_where l f rs ≡ rs
unfolding has_label update_where
update_where-absent l f [] h = refl
update_where-absent l f (r ∷ rs) h = ground (arith, update_where-absent l f rs)

pub delete_where-absent :
    (l : Str) (rs : List Secret) → has_label l rs ≡ false → delete_where l rs ≡ rs
unfolding has_label delete_where
delete_where-absent l [] h = refl
delete_where-absent l (r ∷ rs) h = ground (arith, delete_where-absent l rs)

pub has_label-update_where :
    (j l : Str) (f : Secret → Secret) (rs : List Secret)
    → KeepsLabel f
    → has_label j (update_where l f rs) ≡ has_label j rs
unfolding has_label update_where
has_label-update_where j l f [] k = refl
has_label-update_where j l f (r ∷ rs) k = ground (arith, has_label-update_where j l f rs k, k r)

pub update_where-Unique :
    (l : Str) (f : Secret → Secret) (rs : List Secret)
    → KeepsLabel f
    → Unique rs
    → Unique (update_where l f rs)
unfolding update_where
update_where-Unique l f [] k u = tt
update_where-Unique l f (r ∷ rs) k u =
    ground (arith, update_where-Unique l f rs k u.1, has_label-update_where r.label l f rs k, k r)

pub length-update_where :
    (l : Str) (f : Secret → Secret) (rs : List Secret) → length (update_where l f rs) ≡ length rs
unfolding update_where
length-update_where l f [] = refl
length-update_where l f (r ∷ rs) = ap suc (length-update_where l f rs)

pub length-append_row : (rs : List Secret) (r : Secret) → length (append_row rs r) ≡ suc (length rs)
unfolding append_row
length-append_row [] r = refl
length-append_row (x ∷ rs) r = ap suc (length-append_row rs r)

pub length-delete_where : (l : Str) (rs : List Secret) → length (delete_where l rs) ≤ length rs
unfolding delete_where
length-delete_where l [] = omega arith
length-delete_where l (r ∷ rs) = ground (arith, length-delete_where l rs)

has_label-append_row :
    (j : Str) (rs : List Secret) (r : Secret)
    → has_label j (append_row rs r) ≡ (if has_label j rs then true else str_eq r.label j)
unfolding has_label append_row
has_label-append_row j [] r = ground arith
has_label-append_row j (x ∷ rs) r = ground (arith, has_label-append_row j rs r)

pub append_row-Unique :
    (rs : List Secret) (r : Secret)
    → has_label r.label rs ≡ false
    → Unique rs
    → Unique (append_row rs r)
unfolding append_row has_label
append_row-Unique [] r h u = (refl, tt)
append_row-Unique (x ∷ rs) r h u = ground (
  arith,
  append_row-Unique rs r,
  has_label-append_row x.label rs r,
  str_eq_iff x.label r.label,
  str_eq_iff r.label x.label,
)

has_label-delete_where :
    (j l : Str) (rs : List Secret)
    → has_label j rs ≡ false
    → has_label j (delete_where l rs) ≡ false
unfolding has_label delete_where
has_label-delete_where j l [] h = refl
has_label-delete_where j l (r ∷ rs) h = ground (arith, has_label-delete_where j l rs)

pub delete_where-Unique : (l : Str) (rs : List Secret) → Unique rs → Unique (delete_where l rs)
unfolding delete_where
delete_where-Unique l [] u = tt
delete_where-Unique l (r ∷ rs) u =
    ground (arith, delete_where-Unique l rs u.1, has_label-delete_where r.label l rs)

-- With distinct labels an UPDATE at one label takes at most one row out of the count.
pub enabled_rows-update_where :
    (l : Str) (f : Secret → Secret) (rs : List Secret)
    → Unique rs
    → enabled_rows rs ≤ enabled_rows (update_where l f rs) + 1
unfolding enabled_rows update_where
enabled_rows-update_where l f [] u = omega arith
enabled_rows-update_where l f (r ∷ rs) u =
    ground (
      arith,
      enabled_rows-update_where l f rs u.1,
      update_where-absent l f rs,
      str_eq_iff r.label l,
    )

-- So does a DELETE.
pub enabled_rows-delete_where :
    (l : Str) (rs : List Secret)
    → Unique rs
    → enabled_rows rs ≤ enabled_rows (delete_where l rs) + 1
unfolding enabled_rows delete_where
enabled_rows-delete_where l [] u = omega arith
enabled_rows-delete_where l (r ∷ rs) u =
    ground
      (arith, enabled_rows-delete_where l rs u.1, delete_where-absent l rs, str_eq_iff r.label l)

has_label-disable_id :
    (l : Str) (i : ℕ) (rs : List Secret) → has_label l (disable_id i rs) ≡ has_label l rs
unfolding has_label disable_id
has_label-disable_id l i [] = refl
has_label-disable_id l i (r ∷ rs) = ground (arith, has_label-disable_id l i rs)

pub disable_id-Unique : (i : ℕ) (rs : List Secret) → Unique rs → Unique (disable_id i rs)
unfolding disable_id
disable_id-Unique i [] u = tt
disable_id-Unique i (r ∷ rs) u =
    ground (arith, disable_id-Unique i rs u.1, has_label-disable_id r.label i rs)

has_label-rename :
    (j old new : Str) (f : Secret → Secret) (rs : List Secret)
    → ((r : Secret) → (f r).label ≡ new)
    → has_label j rs ≡ false
    → str_eq new j ≡ false
    → has_label j (update_where old f rs) ≡ false
unfolding has_label update_where
has_label-rename j old new f [] k h ne = refl
has_label-rename j old new f (r ∷ rs) k h ne =
    ground (arith, has_label-rename j old new f rs k, k r)

-- A free label can be given to a row.
pub rename-Unique :
    (old new : Str) (f : Secret → Secret) (rs : List Secret)
    → ((r : Secret) → (f r).label ≡ new)
    → has_label new rs ≡ false
    → Unique rs
    → Unique (update_where old f rs)
unfolding update_where has_label
rename-Unique old new f [] k h u = tt
rename-Unique old new f (r ∷ rs) k h u = ground (
  arith,
  rename-Unique old new f rs k,
  has_label-rename r.label old new f rs k,
  update_where-absent old f rs,
  str_eq_iff r.label old,
  str_eq_iff r.label new,
  str_eq_iff new r.label,
  k r,
)

pub update_where-same :
    (l : Str) (rs : List Secret) → update_where l (λ r. record r { label = l }) rs ≡ rs
unfolding update_where
update_where-same l [] = refl
update_where-same l (r ∷ rs) = ground (arith, update_where-same l rs, str_eq_iff r.label l)

-- What `RenameLabel` does to the table, under the constraint that it meets.
pub renamed-Unique :
    (old new : Str) (rs : List Secret)
    → (has_label old rs && has_label new rs && not (str_eq old new)) ≡ false
    → Unique rs
    → Unique (update_where old (λ r. record r { label = new }) rs)
renamed-Unique old new rs ok u = elim (Bool-cases (has_label old rs)) [
  | inr e ↦ rw (update_where-absent old (λ r. record r { label = new }) rs e) u
  | inl e ↦ elim (Bool-cases (has_label new rs)) [
    | inr f ↦ rename-Unique old new (λ r. record r { label = new }) rs (λ r. refl) f u
    | inl f ↦
        let same : old ≡ new = ground (arith, str_eq_iff old new) in
        rw (← same) (rw (update_where-same old rs) u)
  ]
]

-- A row that is not enabled is not counted, so its DELETE leaves the count.
pub enabled_rows-delete_disabled :
    (l : Str) (rs : List Secret) (r : Secret)
    → Unique rs
    → find l rs ≡ some r
    → r.enabled ≡ false
    → enabled_rows (delete_where l rs) ≡ enabled_rows rs
unfolding enabled_rows delete_where find
enabled_rows-delete_disabled l [] r u f e = refl
enabled_rows-delete_disabled l (x ∷ rs) r u f e =
    ground (
      arith,
      enabled_rows-delete_disabled l rs r u.1,
      delete_where-absent l rs,
      str_eq_iff x.label l,
    )
