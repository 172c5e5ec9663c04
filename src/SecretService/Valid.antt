-- ===== src/SecretService/Valid.antt =====
-- The methods of internal/service/secret_service.go under the invariant of `secrets`.

use popu_gate.Prelude.{
  ◌≡◌, refl, Bool, true, false, ℤ, Str, List, [], ◌∷◌, Option, none, some, arith, length, leb_ℤ,
}
use popu_gate.Model.Secret.{Secret}
use popu_gate.Model.Tables.{Tables}
use popu_gate.Sys.{over_limit}
use popu_gate.Sys.Keeps.{
  Keeps, Keeps-bind, Keeps-pure, Keeps-raise, Keeps-query, Keeps-now, Keeps-calendar, Keeps-guard,
  Keeps-if, keeps_rules,
}
use popu_gate.Sys.Ensures.{
  Ensures, ensure_after, ensure_bind, ensure_query, ensure_guard, ensure_weaken, Ensures-Keeps,
}
use popu_gate.SecretStore
use popu_gate.SecretStore.{Limits}
use popu_gate.SecretStore.Valid.{IsValid, delete-IsValid, rename_label-IsValid}
use popu_gate.SecretStore.Valid.Methods.{
  update-IsValid, extend_expiry-IsValid, HasRoom, create-HasRoom,
}
use popu_gate.Telemt.{generate_secret}
use popu_gate.SecretService.Defs.{
  max_limit, or_not_found, require, or_exists, ensure_free, ensure_room, choose_key, add,
  keep_one_enabled, remove, rotate, toggle, set_limits, update_notes, rename, expiry_in, extend,
  clone, new_keys, leaves_enabled,
}

-- The methods that only read keep every property of the tables.
module _ {I : Tables → Type 0} where
  pub Keeps-get_by_label : (l : Str) → Keeps I (SecretStore.get_by_label l)
  unfolding SecretStore.get_by_label
  Keeps-get_by_label l = Keeps-query _

  pub Keeps-count : Keeps I SecretStore.count
  unfolding SecretStore.count
  Keeps-count = Keeps-query _

  pub Keeps-count_enabled : Keeps I SecretStore.count_enabled
  unfolding SecretStore.count_enabled
  Keeps-count_enabled = Keeps-query _

  pub Keeps-count_enabled_by_labels :
      (ls : List Str) → Keeps I (SecretStore.count_enabled_by_labels ls)
  unfolding SecretStore.count_enabled_by_labels
  Keeps-count_enabled_by_labels ls = Keeps-if _ (Keeps-pure 0) (Keeps-query _)

  Keeps-or_not_found : (l : Str) (o : Option Secret) → Keeps I (or_not_found l o)
  Keeps-or_not_found l none = Keeps-raise _
  Keeps-or_not_found l (some r) = Keeps-pure r

  pub Keeps-require : (l : Str) → Keeps I (require l)
  Keeps-require l = Keeps-bind (Keeps-get_by_label l) (Keeps-or_not_found l)

  Keeps-or_exists : (l : Str) (o : Option Secret) → Keeps I (or_exists l o)
  Keeps-or_exists l none = Keeps-pure tt
  Keeps-or_exists l (some r) = Keeps-raise _

  pub Keeps-ensure_free : (l : Str) → Keeps I (ensure_free l)
  Keeps-ensure_free l = Keeps-bind (Keeps-get_by_label l) (Keeps-or_exists l)

  pub Keeps-generate_secret : Keeps I generate_secret
  unfolding generate_secret
  Keeps-generate_secret = search keeps_rules

  pub Keeps-choose_key : (k : Str) → Keeps I (choose_key k)
  unfolding choose_key
  Keeps-choose_key k =
      Keeps-if _ Keeps-generate_secret (Keeps-bind (Keeps-guard _ _) (λ _. Keeps-pure _))

  pub Keeps-keep_one_enabled : (b : Bool) → Keeps I (keep_one_enabled b)
  Keeps-keep_one_enabled true = Keeps-bind Keeps-count_enabled (λ n. Keeps-guard _ _)
  Keeps-keep_one_enabled false = Keeps-pure tt

  pub Keeps-expiry_in : (days : ℤ) → Keeps I (expiry_in days)
  unfolding expiry_in
  Keeps-expiry_in days = Keeps-bind Keeps-now (λ t. Keeps-bind Keeps-calendar (λ env. Keeps-pure _))

  pub Keeps-new_keys : (ls : List Str) → Keeps I (new_keys ls)
  unfolding new_keys
  Keeps-new_keys [] = Keeps-pure []
  Keeps-new_keys (l ∷ ls) =
      Keeps-bind Keeps-generate_secret
        (λ key. Keeps-bind (Keeps-new_keys ls) (λ rest. Keeps-pure _))

  pub Keeps-leaves_enabled : (ls : List Str) (b : Bool) → Keeps I (leaves_enabled ls b)
  Keeps-leaves_enabled ls true = Keeps-pure tt
  Keeps-leaves_enabled ls false =
      Keeps-bind Keeps-count_enabled
        (λ n. Keeps-bind (Keeps-count_enabled_by_labels ls) (λ m. Keeps-guard _ _))

-- Behind the count of `Add` there is room for one more row.
ensure_room-HasRoom : Ensures IsValid ensure_room (λ _. HasRoom 1) IsValid
unfolding SecretStore.count
ensure_room-HasRoom =
    ensure_bind
      (ensure_query {Q = λ n db. IsValid db × (n ≡ length db.secrets)} (λ db. length db.secrets)
        (λ db v. (v, refl)) (λ db v. v))
      (λ n. ensure_guard _ _ (λ db v fits. (v.0, ground (arith, v.1, fits))) (λ db v. v.0))

from_room : (db : Tables) → HasRoom 1 db → IsValid db
from_room db h = h.0

pub add-IsValid : (l k : Str) → Keeps IsValid (add l k)
unfolding add
add-IsValid l k = Ensures-Keeps (
    ensure_after (Keeps-guard _ _)
      (λ _. ensure_bind ensure_room-HasRoom (λ _.
        ensure_after (Keeps-ensure_free l)
          (λ _.
            ensure_after (Keeps-choose_key k)
              (λ key.
                ensure_after Keeps-now
                  (λ t.
                    ensure_weaken (λ db h. h) (create-HasRoom 0 _) (λ r db h. h.0) (λ db h. h.0))
                  from_room)
              from_room)
          from_room))
      (λ db v. v))

pub remove-IsValid : (l : Str) (force : Bool) → Keeps IsValid (remove l force)
unfolding remove
remove-IsValid l force =
    Keeps-bind (Keeps-require l)
      (λ sec. Keeps-bind (Keeps-keep_one_enabled _) (λ _. delete-IsValid l))

pub rotate-IsValid : (l : Str) → Keeps IsValid (rotate l)
unfolding rotate
rotate-IsValid l = Keeps-bind (Keeps-require l) (λ sec.
    Keeps-bind Keeps-generate_secret (λ key. Keeps-bind (update-IsValid _) (λ _. Keeps-pure _)))

pub toggle-IsValid : (l : Str) (b : Bool) → Keeps IsValid (toggle l b)
unfolding toggle
toggle-IsValid l b =
    Keeps-bind (Keeps-require l)
      (λ sec. Keeps-bind (Keeps-keep_one_enabled _) (λ _. update-IsValid _))

pub set_limits-IsValid : (l : Str) (limits : Limits) → Keeps IsValid (set_limits l limits)
unfolding set_limits
set_limits-IsValid l limits = Keeps-bind (Keeps-require l) (λ sec.
    Keeps-bind (Keeps-guard (leb_ℤ limits.max_conns max_limit) over_limit) (λ _.
      Keeps-bind (Keeps-guard (leb_ℤ limits.max_ips max_limit) over_limit)
        (λ _. update-IsValid (SecretStore.with_limits limits sec))))

pub update_notes-IsValid : (l notes : Str) → Keeps IsValid (update_notes l notes)
unfolding update_notes
update_notes-IsValid l notes = Keeps-bind (Keeps-require l) (λ sec. update-IsValid _)

pub rename-IsValid : (old new : Str) → Keeps IsValid (rename old new)
unfolding rename
rename-IsValid old new = Keeps-bind (Keeps-guard _ _) (λ _.
    Keeps-bind (Keeps-require old)
      (λ _. Keeps-bind (Keeps-ensure_free new) (λ _. rename_label-IsValid old new)))

pub extend-IsValid : (l : Str) (days : ℤ) → Keeps IsValid (extend l days)
unfolding extend
extend-IsValid l days = Keeps-bind (Keeps-guard _ _) (λ _.
    Keeps-bind (Keeps-require l)
      (λ sec. Keeps-bind (Keeps-expiry_in days) (λ e. extend_expiry-IsValid l e _)))

pub clone-IsValid : (source l : Str) → Keeps IsValid (clone source l)
unfolding clone
clone-IsValid source l = Ensures-Keeps (
    ensure_after (Keeps-guard _ _)
      (λ _.
        ensure_after (Keeps-ensure_free l)
          (λ _. ensure_bind ensure_room-HasRoom (λ _.
            ensure_after (Keeps-require source)
              (λ src.
                ensure_after Keeps-generate_secret
                  (λ key.
                    ensure_after Keeps-now
                      (λ t.
                        ensure_weaken (λ db h. h) (create-HasRoom 0 _) (λ r db h. h.0)
                          (λ db h. h.0))
                      from_room)
                  from_room)
              from_room))
          (λ db v. v))
      (λ db v. v))
