-- ===== src/SecretStore/Rows/Ids.antt =====
-- Rows in the order of their ids, as AUTOINCREMENT gives them out.
use popu_gate.Prelude.{ℕ, suc, ◌+◌, ◌≤◌, ◌<◌, ◌≡◌, refl, Str, List, [], ◌∷◌, arith, length}
use popu_gate.Model.Secret.{Secret}
use popu_gate.SecretStore.Rows.{update_where, delete_where, append_row, enabled_rows, disable_id}

-- The ids are distinct, ascending from above `low`, and at most `top`.
abbrev pub Ascending : ℕ → ℕ → List Secret → Type 0
Ascending low top [] = low ≤ top
Ascending low top (r ∷ rs) = (low < r.id) × Ascending r.id top rs

abbrev pub KeepsId : (Secret → Secret) → Type 0
KeepsId f = (r : Secret) → (f r).id ≡ r.id

pub Ascending-le : (low top : ℕ) (rs : List Secret) → Ascending low top rs → low ≤ top
Ascending-le low top [] h = h
Ascending-le low top (r ∷ rs) h = omega (arith, Ascending-le r.id top rs h.1)

pub Ascending-lower :
    (low mid top : ℕ) (rs : List Secret) → low ≤ mid → Ascending mid top rs → Ascending low top rs
Ascending-lower low mid top [] p h = omega arith
Ascending-lower low mid top (r ∷ rs) p h = (omega arith, h.1)

pub update_where-Ascending :
    (l : Str) (f : Secret → Secret) (low top : ℕ) (rs : List Secret)
    → KeepsId f
    → Ascending low top rs
    → Ascending low top (update_where l f rs)
unfolding update_where
update_where-Ascending l f low top [] k h = h
update_where-Ascending l f low top (r ∷ rs) k h =
    ground (arith, update_where-Ascending l f r.id top rs k h.1, k r)

pub delete_where-Ascending :
    (l : Str) (low top : ℕ) (rs : List Secret)
    → Ascending low top rs
    → Ascending low top (delete_where l rs)
unfolding delete_where
delete_where-Ascending l low top [] h = h
delete_where-Ascending l low top (r ∷ rs) h = ground (
  arith,
  delete_where-Ascending l r.id top rs h.1,
  Ascending-lower low r.id top (delete_where l rs),
)

pub append_row-Ascending :
    (low top : ℕ) (rs : List Secret) (r : Secret)
    → Ascending low top rs
    → r.id ≡ suc top
    → Ascending low (suc top) (append_row rs r)
unfolding append_row
append_row-Ascending low top [] r h e = (omega arith, omega arith)
append_row-Ascending low top (x ∷ rs) r h e = (h.0, append_row-Ascending x.id top rs r h.1 e)

pub disable_id-Ascending :
    (i low top : ℕ) (rs : List Secret) → Ascending low top rs → Ascending low top (disable_id i rs)
unfolding disable_id
disable_id-Ascending i low top [] h = h
disable_id-Ascending i low top (r ∷ rs) h = ground (arith, disable_id-Ascending i r.id top rs h.1)

disable_id-below :
    (i low top : ℕ) (rs : List Secret) → i ≤ low → Ascending low top rs → disable_id i rs ≡ rs
unfolding disable_id
disable_id-below i low top [] p h = refl
disable_id-below i low top (r ∷ rs) p h =
    ground (arith, disable_id-below i r.id top rs (omega arith) h.1)

-- One id takes at most one row out of the count.
pub enabled_rows-disable_id :
    (i low top : ℕ) (rs : List Secret)
    → Ascending low top rs
    → enabled_rows rs ≤ enabled_rows (disable_id i rs) + 1
unfolding enabled_rows disable_id
enabled_rows-disable_id i low top [] h = omega arith
enabled_rows-disable_id i low top (r ∷ rs) h =
    ground (arith, enabled_rows-disable_id i r.id top rs h.1, disable_id-below i r.id top rs)

pub length-disable_id : (i : ℕ) (rs : List Secret) → length (disable_id i rs) ≡ length rs
unfolding disable_id
length-disable_id i [] = refl
length-disable_id i (r ∷ rs) = omega (arith, length-disable_id i rs)
