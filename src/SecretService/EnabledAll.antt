-- ===== src/SecretService/EnabledAll.antt =====
-- Lemmas on disabling a list of secrets: `BulkToggle` of internal/service/secret_service.go.
use popu_gate.Prelude.{
  ℕ, ◌+◌, ◌≤◌, ◌≡◌, refl, Bool, true, false, not, ◌&&◌, Str, str_eq_iff, List, [], ◌∷◌, arith,
  length, if◌then◌else◌, ◌==◌,
}
use popu_gate.Model.Secret.{Secret}
use popu_gate.Model.Tables.{Tables}
use popu_gate.Sys.{Sys, exec, query, attempt, pure}
use popu_gate.Sys.Keeps.{
  Keeps, Keeps-bind, Keeps-pure, Keeps-write, Keeps-attempt, Keeps-transaction,
}
use popu_gate.Sys.Ensures.{
  Ensures, ensure_bind, ensure_pure, ensure_query, ensure_guard, ensure_weaken, Keeps-Ensures,
  Ensures-state,
}
use popu_gate.SecretStore
use popu_gate.SecretStore.{
  parse_expiry, expired_ids, disable_ids, spare_last, find_expired_ids, disable_row, set_where,
}
use popu_gate.SecretStore.Rows.{
  enabled_rows, enabled_rows_in, one_of, one_if, update_where, rows_with,
}
use popu_gate.SecretStore.Valid.Methods.{Keeps-check_not_last}
use popu_gate.SecretService.Defs.{leaves_enabled, bulk_toggle}

-- The enabled rows whose label is none of `ls`.
enabled_rows_outside : List Str → List Secret → ℕ
enabled_rows_outside ls [] = 0
enabled_rows_outside ls (r ∷ rs) =
    one_if (r.enabled && not (one_of r.label ls)) + enabled_rows_outside ls rs

enabled_rows-split :
    (ls : List Str) (rs : List Secret)
    → enabled_rows rs ≡ enabled_rows_in ls rs + enabled_rows_outside ls rs
unfolding enabled_rows enabled_rows_in enabled_rows_outside
enabled_rows-split ls [] = refl
enabled_rows-split ls (r ∷ rs) = ground (arith, enabled_rows-split ls rs)

enabled_rows_in-nil : (rs : List Secret) → enabled_rows_in [] rs ≡ 0
unfolding enabled_rows_in one_of
enabled_rows_in-nil [] = refl
enabled_rows_in-nil (r ∷ rs) = ground (arith, enabled_rows_in-nil rs)

enabled_rows_outside-update_where :
    (ls : List Str) (l : Str) (b : Bool) (rs : List Secret)
    → one_of l ls ≡ true
    → enabled_rows_outside ls (update_where l (λ r. record r { enabled = b }) rs)
      ≡ enabled_rows_outside ls rs
unfolding enabled_rows_outside update_where
enabled_rows_outside-update_where ls l b [] h = refl
enabled_rows_outside-update_where ls l b (r ∷ rs) h =
    ground (arith, enabled_rows_outside-update_where ls l b rs h, str_eq_iff r.label l)

-- Some secret that is not in `ls` is enabled.
abbrev HasOther : List Str → Tables → Type 0
HasOther ls db = 1 ≤ enabled_rows_outside ls db.secrets

set_other :
    (ls : List Str) (l : Str) (b : Bool)
    → one_of l ls ≡ true
    → Keeps (HasOther ls) (exec (set_where l (λ r. record r { enabled = b })))
unfolding set_where
set_other ls l b h =
    Keeps-write (λ db. rows_with l db.secrets)
      (λ db. record db { secrets = update_where l (λ r. record r { enabled = b }) db.secrets })
      λ db k. omega (arith, k, enabled_rows_outside-update_where ls l b db.secrets h)

-- All of `sub` are labels of `ls`.
abbrev Within : List Str → List Str → Type 0
Within ls [] = Unit
Within ls (l ∷ sub) = (one_of l ls ≡ true) × Within ls sub

Within-cons : (x : Str) (ls sub : List Str) → Within ls sub → Within (x ∷ ls) sub
unfolding one_of
Within-cons x ls [] h = tt
Within-cons x ls (l ∷ sub) h = ground (arith, Within-cons x ls sub h.1)

Within-refl : (ls : List Str) → Within ls ls
unfolding one_of
Within-refl [] = tt
Within-refl (l ∷ ls) = ground (arith, str_eq_iff l l, Within-cons l ls ls (Within-refl ls))

sum_over-HasOther :
    (ls sub : List Str) (b : Bool)
    → Within ls sub
    → Keeps (HasOther ls) (
        SecretStore.sum_over
          (λ l. attempt (exec (set_where l (λ r. record r { enabled = b }))))
          sub)
unfolding SecretStore.sum_over
sum_over-HasOther ls [] b h = Keeps-pure 0
sum_over-HasOther ls (l ∷ sub) b h =
    Keeps-bind (Keeps-attempt (set_other ls l b h.0))
      (λ n. Keeps-bind (sum_over-HasOther ls sub b h.1) (λ rest. Keeps-pure _))

bulk_toggle_enabled-HasOther :
    (ls : List Str) (b : Bool) → Keeps (HasOther ls) (SecretStore.bulk_toggle_enabled ls b)
unfolding SecretStore.bulk_toggle_enabled
bulk_toggle_enabled-HasOther ls b =
    Keeps-transaction
      (Keeps-bind (Keeps-check_not_last ls b) (λ _. sum_over-HasOther ls ls b (Within-refl ls)))

abbrev HasEnabled : Tables → Type 0
HasEnabled db = 1 ≤ enabled_rows db.secrets

none_in : (ls : List Str) (rs : List Secret) → (length ls == 0) ≡ true → enabled_rows_in ls rs ≡ 0
none_in [] rs e = enabled_rows_in-nil rs
none_in (l ∷ ls) rs e = absurd (ground arith)

abbrev Counted : List Str → ℕ → ℕ → Tables → Type 0
Counted ls n m db =
    HasEnabled db × (n ≡ enabled_rows db.secrets) × (m ≡ enabled_rows_in ls db.secrets)

count_or_none :
    (ls : List Str) (n : ℕ) (b : Bool)
    → (length ls == 0) ≡ b
    → Ensures
        (λ db. HasEnabled db × (n ≡ enabled_rows db.secrets))
        (if b then pure 0 else query (λ db. enabled_rows_in ls db.secrets))
        (Counted ls n)
        HasEnabled
count_or_none ls n true e =
    ensure_pure 0 (λ db h. (h.0, h.1, omega (arith, none_in ls db.secrets e)))
count_or_none ls n false e =
    ensure_query (λ db. enabled_rows_in ls db.secrets) (λ db h. (h.0, h.1, refl)) (λ db h. h.0)

count_in :
    (ls : List Str) (n : ℕ)
    → Ensures
        (λ db. HasEnabled db × (n ≡ enabled_rows db.secrets))
        (SecretStore.count_enabled_by_labels ls)
        (Counted ls n)
        HasEnabled
unfolding SecretStore.count_enabled_by_labels
count_in ls n = count_or_none ls n (length ls == 0) refl

leaves_enabled-HasOther :
    (ls : List Str) → Ensures HasEnabled (leaves_enabled ls false) (λ _. HasOther ls) HasEnabled
unfolding SecretStore.count_enabled
leaves_enabled-HasOther ls =
    ensure_bind
      (ensure_query {Q = λ n db. HasEnabled db × (n ≡ enabled_rows db.secrets)}
        (λ db. enabled_rows db.secrets) (λ db h. (h, refl)) (λ db h. h))
      (λ n. ensure_bind (count_in ls n) (λ m.
        ensure_guard _ _
          (λ db h fewer. ground (arith, h.1, h.2, fewer, enabled_rows-split ls db.secrets))
          (λ db h. h.0)))

from_other : (ls : List Str) (db : Tables) → HasOther ls db → HasEnabled db
from_other ls db h = omega (arith, h, enabled_rows-split ls db.secrets)

-- Disabling a list of labels, from one or more enabled secrets: at least one secret is enabled
-- behind the call, whichever database calls fail, also those inside the transaction.
pub bulk_toggle-enabled_rows :
    (ls : List Str) (s : Sys)
    → 1 ≤ enabled_rows s.db.secrets
    → 1 ≤ enabled_rows (bulk_toggle ls false s).1.db.secrets
unfolding bulk_toggle
bulk_toggle-enabled_rows ls s h =
    Ensures-state
      (ensure_bind (leaves_enabled-HasOther ls) (λ _.
        ensure_weaken (λ db k. k) (Keeps-Ensures (bulk_toggle_enabled-HasOther ls false))
          (λ _ db k. from_other ls db k) (from_other ls)))
      s h
