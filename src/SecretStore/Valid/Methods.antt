-- ===== src/SecretStore/Valid/Methods.antt =====
-- More methods of internal/store/secret_store.go under the invariant of `secrets`.
use popu_gate.Prelude.{
  ℕ, suc, ◌+◌, ◌≤◌, refl, Bool, true, false, ℤ, Str, List, [], ◌∷◌, Option, none, some, arith,
  length,
}
use popu_gate.Model.Secret.{Secret, max_secrets}
use popu_gate.Model.Tables.{Tables}
use popu_gate.Sys.{M, exec, attempt}
use popu_gate.Sys.Keeps.{
  Keeps, Keeps-bind, Keeps-pure, Keeps-query, Keeps-attempt, Keeps-now, Keeps-calendar, Keeps-guard,
  Keeps-transaction, keeps_rules,
}
use popu_gate.Sys.Ensures.{Ensures, ensure_after, ensure_bind, ensure_checked, ensure_pure}
use popu_gate.SecretStore.Rows.{append_row, has_label, find}
use popu_gate.SecretStore.Rows.Unique.{KeepsLabel, append_row-Unique, length-append_row}
use popu_gate.SecretStore.Rows.Ids.{KeepsId, append_row-Ascending}
use popu_gate.SecretStore.Defs.{
  set_where, columns, create, update, set_one, extended, extend_expiry, update_tags, archive,
  unarchive, insert_secret, inserted, unix,
}
use popu_gate.SecretStore.Expiry.{disable_expired, disable_ids, find_expired_ids}
use popu_gate.SecretStore.Bulk.{
  sum_over, bulk_extend_expiry, key_of, set_key, bulk_rotate_keys, bulk_toggle_enabled,
  check_not_last, count_one, Limits, limit_found, limit_columns, with_limits, bulk_set_limits,
}
use popu_gate.SecretStore.Valid.{IsValid, set_where-IsValid, disable_row-IsValid}

pub update-IsValid : (sec : Secret) → Keeps IsValid (update sec)
unfolding update
update-IsValid sec =
    Keeps-bind (set_where-IsValid sec.label (columns sec) (λ r. refl) (λ r. refl))
      (λ n. Keeps-pure tt)

set_one-IsValid :
    (l : Str) (f : Secret → Secret) → KeepsLabel f → KeepsId f → Keeps IsValid (set_one l f)
unfolding set_one
set_one-IsValid l f kl ki = search (keeps_rules, set_where-IsValid l f kl ki)

extended-KeepsLabel : (e : Str) (b : Bool) → KeepsLabel (extended e b)
extended-KeepsLabel e true r = refl
extended-KeepsLabel e false r = refl

extended-KeepsId : (e : Str) (b : Bool) → KeepsId (extended e b)
extended-KeepsId e true r = refl
extended-KeepsId e false r = refl

pub extend_expiry-IsValid : (l e : Str) (b : Bool) → Keeps IsValid (extend_expiry l e b)
unfolding extend_expiry
extend_expiry-IsValid l e b =
    set_one-IsValid l (extended e b) (extended-KeepsLabel e b) (extended-KeepsId e b)

pub update_tags-IsValid : (l tags : Str) → Keeps IsValid (update_tags l tags)
unfolding update_tags
update_tags-IsValid l tags =
    set_one-IsValid l (λ r. record r { tags = tags }) (λ r. refl) (λ r. refl)

archived-IsValid : (l : Str) (t : ℤ) → Keeps IsValid (set_one l (λ r. record r { archived_at = t }))
archived-IsValid l t = set_one-IsValid l (λ r. record r { archived_at = t }) (λ r. refl) (λ r. refl)

pub archive-IsValid : (l : Str) → Keeps IsValid (archive l)
unfolding archive
archive-IsValid l = search (keeps_rules, archived-IsValid)

pub unarchive-IsValid : (l : Str) → Keeps IsValid (unarchive l)
unfolding unarchive
unarchive-IsValid l = search archived-IsValid

disable_ids-IsValid : (ids : List ℕ) → Keeps IsValid (disable_ids ids)
unfolding disable_ids
disable_ids-IsValid [] = Keeps-pure 0
disable_ids-IsValid (i ∷ is) =
    Keeps-bind (disable_row-IsValid i)
      λ n. Keeps-bind (disable_ids-IsValid is) (λ rest. Keeps-pure _)

find_expired_ids-IsValid : Keeps IsValid find_expired_ids
unfolding find_expired_ids
find_expired_ids-IsValid =
    Keeps-bind (Keeps-query _)
      λ rows. Keeps-bind Keeps-now (λ t. Keeps-bind Keeps-calendar (λ env. Keeps-pure _))

pub disable_expired-IsValid : Keeps IsValid disable_expired
unfolding disable_expired
disable_expired-IsValid = search (keeps_rules, find_expired_ids-IsValid, disable_ids-IsValid)

module _ {I : Tables → Type 0} where
  pub Keeps-sum_over :
      (f : Str → M (Option ℕ)) (ls : List Str)
      → ((l : Str) → Keeps I (f l))
      → Keeps I (sum_over f ls)
  unfolding sum_over
  Keeps-sum_over f [] h = Keeps-pure 0
  Keeps-sum_over f (l ∷ ls) h =
      Keeps-bind (h l) (λ n. Keeps-bind (Keeps-sum_over f ls h) (λ rest. Keeps-pure _))

  pub Keeps-count_one : (l : Str) → Keeps I (count_one l)
  Keeps-count_one l = search keeps_rules

  pub Keeps-check_not_last : (ls : List Str) (b : Bool) → Keeps I (check_not_last ls b)
  unfolding check_not_last
  Keeps-check_not_last ls true = search keeps_rules
  Keeps-check_not_last ls false =
      Keeps-bind (Keeps-query _)
        λ current. Keeps-bind (Keeps-sum_over count_one ls Keeps-count_one) (λ n. Keeps-guard _ _)

set_attempt-IsValid :
    (l : Str) (f : Secret → Secret)
    → KeepsLabel f
    → KeepsId f
    → Keeps IsValid (attempt (exec (set_where l f)))
set_attempt-IsValid l f kl ki = Keeps-attempt (set_where-IsValid l f kl ki)

pub bulk_extend_expiry-IsValid :
    (ls : List Str) (e : Str) (b : Bool) → Keeps IsValid (bulk_extend_expiry ls e b)
unfolding bulk_extend_expiry
bulk_extend_expiry-IsValid ls e b = search (
  keeps_rules,
  Keeps-sum_over (λ l. attempt (exec (set_where l (extended e b)))) ls
      (λ l. set_attempt-IsValid l (extended e b) (extended-KeepsLabel e b) (extended-KeepsId e b)),
)

set_key-IsValid : (l : Str) (k : Option Str) → Keeps IsValid (set_key l k)
set_key-IsValid l none = Keeps-pure none
set_key-IsValid l (some key) =
    set_attempt-IsValid l (λ r. record r { secret_key = key }) (λ r. refl) (λ r. refl)

pub bulk_rotate_keys-IsValid :
    (ls : List Str) (keys : List (Str × Str)) → Keeps IsValid (bulk_rotate_keys ls keys)
unfolding bulk_rotate_keys
bulk_rotate_keys-IsValid ls keys = search (
  keeps_rules,
  Keeps-sum_over (λ l. set_key l (key_of l keys)) ls (λ l. set_key-IsValid l (key_of l keys)),
)

pub bulk_toggle_enabled-IsValid :
    (ls : List Str) (b : Bool) → Keeps IsValid (bulk_toggle_enabled ls b)
unfolding bulk_toggle_enabled
bulk_toggle_enabled-IsValid ls b = Keeps-transaction (
    Keeps-bind (Keeps-check_not_last ls b) λ _.
      Keeps-sum_over (λ l. attempt (exec (set_where l (λ r. record r { enabled = b })))) ls
        λ l. set_attempt-IsValid l (λ r. record r { enabled = b }) (λ r. refl) (λ r. refl))

limit_found-IsValid :
    (l : Limits) (row : Option (Option Secret)) → Keeps IsValid (limit_found l row)
limit_found-IsValid l none = Keeps-pure none
limit_found-IsValid l (some none) = Keeps-pure none
limit_found-IsValid l (some (some sec)) =
    Keeps-bind
      (set_attempt-IsValid sec.label (limit_columns (with_limits l sec)) (λ r. refl) (λ r. refl))
      (λ done. Keeps-pure _)

pub bulk_set_limits-IsValid : (ls : List Str) (l : Limits) → Keeps IsValid (bulk_set_limits ls l)
unfolding bulk_set_limits
bulk_set_limits-IsValid ls l = search (
  keeps_rules,
  Keeps-sum_over _ ls (λ label.
      Keeps-bind (Keeps-attempt (Keeps-query (λ db. find label db.secrets)))
        (limit_found-IsValid l)),
)

-- A valid table with `k` rows to spare.
abbrev pub HasRoom : ℕ → Tables → Type 0
HasRoom k db = IsValid db × (length db.secrets + k ≤ max_secrets)

insert_secret-HasRoom :
    (k : ℕ) (created : ℤ) (sec : Secret)
    → Ensures (HasRoom (suc k)) (exec (insert_secret created sec)) (λ _. HasRoom k) (HasRoom k)
unfolding insert_secret
insert_secret-HasRoom k created sec =
    ensure_checked (λ db. has_label sec.label db.secrets) (λ db. suc db.secret_seq)
      (λ db. record db {
        secrets = append_row db.secrets (inserted (suc db.secret_seq) created sec);
        secret_seq = suc db.secret_seq;
      })
      (λ db v free.
        let row = inserted (suc db.secret_seq) created sec in
        (
          record {
            unique = append_row-Unique db.secrets row free v.0.unique;
            ascending = append_row-Ascending 0 db.secret_seq db.secrets row v.0.ascending refl;
            room = omega (arith, v.1, length-append_row db.secrets row);
          },
          omega (arith, v.1, length-append_row db.secrets row),
        ))
      (λ db v. (v.0, omega (arith, v.1)))

pub create-HasRoom :
    (k : ℕ) (sec : Secret) → Ensures (HasRoom (suc k)) (create sec) (λ _. HasRoom k) (HasRoom k)
unfolding create
create-HasRoom k sec =
    ensure_after Keeps-now
      (λ t. ensure_bind (insert_secret-HasRoom k (unix t) sec) (λ i. ensure_pure _ (λ db v. v)))
      (λ db v. (v.0, omega (arith, v.1)))
