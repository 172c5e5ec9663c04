-- ===== src/SecretService/Serve.antt =====
-- Sequences of requests to internal/service/secret_service.go, under the invariant of `secrets`.
use popu_gate.Prelude.{
  ℕ, suc, refl, Bool, true, ℤ, Str, str_eq, not, List, [], ◌∷◌, Option, none, some, ◌≡◌, arith,
  length, if◌then◌else◌,
}
use popu_gate.Model.Secret.{Secret, validate_label}
use popu_gate.Model.Tables.{Tables}
use popu_gate.Sys.{M, Sys, pure, ◌>>◌}
use popu_gate.Sys.Keeps.{Keeps, Keeps-bind, Keeps-pure, Keeps-guard, Keeps-now, Keeps-attempt}
use popu_gate.Sys.Ensures.{
  Ensures, ensure_after, ensure_bind, ensure_pure, ensure_query, ensure_guard, ensure_attempt,
  ensure_weaken, Ensures-Keeps,
}
use popu_gate.SecretStore
use popu_gate.SecretStore.{Limits}
use popu_gate.SecretStore.Valid.{IsValid}
use popu_gate.SecretStore.Valid.Methods.{
  update_tags-IsValid, archive-IsValid, unarchive-IsValid, disable_expired-IsValid,
  bulk_extend_expiry-IsValid, bulk_rotate_keys-IsValid, bulk_toggle_enabled-IsValid,
  bulk_set_limits-IsValid, HasRoom, create-HasRoom,
}
use popu_gate.Telemt.{validate_secret_key}
use popu_gate.SecretService.Defs.{
  add, remove, rotate, toggle, set_limits, update_notes, rename, extend, disable_expired, set_tags,
  archive, unarchive, clone, bulk_extend, bulk_rotate, bulk_toggle, bulk_set_limits,
}
use popu_gate.SecretService.Import.{
  Outcome, create_entry, import_new, import_found, import_one, import_all, import_secrets,
}
use popu_gate.SecretService.Valid.{
  Keeps-get_by_label, Keeps-require, Keeps-generate_secret, Keeps-expiry_in, Keeps-new_keys,
  Keeps-leaves_enabled, add-IsValid, remove-IsValid, rotate-IsValid, toggle-IsValid,
  set_limits-IsValid, update_notes-IsValid, rename-IsValid, extend-IsValid, clone-IsValid,
}

fewer : (k : ℕ) (db : Tables) → HasRoom (suc k) db → HasRoom k db
fewer k db h = (h.0, omega (arith, h.1))

module _ (k : ℕ) where
  create_entry-HasRoom :
      (e : Secret) (key : Str)
      → Ensures (HasRoom (suc k)) (create_entry e key) (λ _. HasRoom k) (HasRoom k)
  create_entry-HasRoom e key =
      ensure_after Keeps-now
        (λ t.
          ensure_bind
            (ensure_attempt {R = λ _. HasRoom k} (create-HasRoom k _) (λ _ db h. h) (λ db h. h))
            (λ done. ensure_pure _ (λ db h. h)))
        (fewer k)

  failed-HasRoom : (o : Outcome) → Ensures (HasRoom (suc k)) (pure o) (λ _. HasRoom k) (HasRoom k)
  failed-HasRoom o = ensure_pure o (fewer k)

  import_new-HasRoom :
      (e : Secret) → Ensures (HasRoom (suc k)) (import_new e) (λ _. HasRoom k) (HasRoom k)
  import_new-HasRoom e =
      choose (str_eq e.secret_key [])
        (ensure_after (Keeps-attempt Keeps-generate_secret) (λ key. create_entry-HasRoom e _)
          (fewer k))
        (choose (validate_secret_key e.secret_key) (create_entry-HasRoom e e.secret_key)
          (failed-HasRoom Outcome.failed))
    where
      choose :
          (b : Bool) {m n : M Outcome}
          → Ensures (HasRoom (suc k)) m (λ _. HasRoom k) (HasRoom k)
          → Ensures (HasRoom (suc k)) n (λ _. HasRoom k) (HasRoom k)
          → Ensures (HasRoom (suc k)) (if b then m else n) (λ _. HasRoom k) (HasRoom k)
      choose true p q = p
      choose Bool.false p q = q

  import_found-HasRoom :
      (e : Secret) (found : Option (Option Secret))
      → Ensures (HasRoom (suc k)) (import_found e found) (λ _. HasRoom k) (HasRoom k)
  import_found-HasRoom e none = failed-HasRoom Outcome.failed
  import_found-HasRoom e (some (some sec)) = failed-HasRoom Outcome.existed
  import_found-HasRoom e (some none) = import_new-HasRoom e

  import_one-HasRoom :
      (e : Secret) → Ensures (HasRoom (suc k)) (import_one e) (λ _. HasRoom k) (HasRoom k)
  unfolding import_one
  import_one-HasRoom e = choose (str_eq e.label []) (failed-HasRoom Outcome.failed) (
      choose (not (validate_label e.label)) (failed-HasRoom Outcome.failed) (
        ensure_after (Keeps-attempt (Keeps-get_by_label e.label)) (import_found-HasRoom e)
          (fewer k)))
    where
      choose :
          (b : Bool) {m n : M Outcome}
          → Ensures (HasRoom (suc k)) m (λ _. HasRoom k) (HasRoom k)
          → Ensures (HasRoom (suc k)) n (λ _. HasRoom k) (HasRoom k)
          → Ensures (HasRoom (suc k)) (if b then m else n) (λ _. HasRoom k) (HasRoom k)
      choose true p q = p
      choose Bool.false p q = q

import_all-HasRoom :
    (es : List Secret) → Ensures (HasRoom (length es)) (import_all es) (λ _. IsValid) IsValid
unfolding import_all
import_all-HasRoom [] = ensure_pure _ (λ db h. h.0)
import_all-HasRoom (e ∷ es) =
    ensure_bind
      (ensure_weaken (λ db h. h) (import_one-HasRoom (length es) e) (λ _ db h. h) (λ db h. h.0))
      (λ o. ensure_bind (import_all-HasRoom es) (λ r. ensure_pure _ (λ db h. h)))

import_secrets-IsValid : (es : List Secret) → Keeps IsValid (import_secrets es)
unfolding import_secrets SecretStore.count
import_secrets-IsValid es = Ensures-Keeps (
    ensure_bind
      (ensure_query {Q = λ n db. IsValid db × (n ≡ length db.secrets)} (λ db. length db.secrets)
        (λ db v. (v, refl)) (λ db v. v))
      (λ n.
        ensure_bind
          (ensure_guard {Q = λ _. HasRoom (length es)} _ _
            (λ db v fits. (v.0, ground (arith, v.1, fits))) (λ db v. v.0))
          (λ _. import_all-HasRoom es)))

-- A call of one of the service's methods that change the tables.
pub data Request : Type 0 where
  add_secret : Str → Str → Request
  remove_secret : Str → Bool → Request
  rotate_secret : Str → Request
  toggle_secret : Str → Bool → Request
  limit_secret : Str → Limits → Request
  note_secret : Str → Str → Request
  rename_secret : Str → Str → Request
  extend_secret : Str → ℤ → Request
  expire_secrets : Request
  tag_secret : Str → Str → Request
  archive_secret : Str → Request
  unarchive_secret : Str → Request
  clone_secret : Str → Str → Request
  extend_all : List Str → ℤ → Request
  rotate_all : List Str → Request
  toggle_all : List Str → Bool → Request
  limit_all : List Str → Limits → Request
  import_list : List Secret → Request

pub handle : Request → M (Unit {0})
handle (add_secret l k) = add l k >> pure tt
handle (remove_secret l force) = remove l force
handle (rotate_secret l) = rotate l >> pure tt
handle (toggle_secret l b) = toggle l b
handle (limit_secret l limits) = set_limits l limits
handle (note_secret l notes) = update_notes l notes
handle (rename_secret old new) = rename old new
handle (extend_secret l days) = extend l days
handle expire_secrets = disable_expired >> pure tt
handle (tag_secret l tags) = set_tags l tags
handle (archive_secret l) = archive l
handle (unarchive_secret l) = unarchive l
handle (clone_secret source l) = clone source l >> pure tt
handle (extend_all ls days) = bulk_extend ls days >> pure tt
handle (rotate_all ls) = bulk_rotate ls >> pure tt
handle (toggle_all ls b) = bulk_toggle ls b >> pure tt
handle (limit_all ls limits) = bulk_set_limits ls limits >> pure tt
handle (import_list es) = import_secrets es >> pure tt

-- The state behind a sequence of requests, each of which may fail.
pub serve : List Request → Sys → Sys
serve [] s = s
serve (q ∷ qs) s = serve qs (handle q s).1

done : {A : Type 0} {m : M A} → Keeps IsValid m → Keeps IsValid (m >> pure tt)
done k = Keeps-bind k (λ _. Keeps-pure tt)

handle-IsValid : (q : Request) → Keeps IsValid (handle q)
unfolding handle disable_expired set_tags archive unarchive bulk_extend bulk_rotate bulk_toggle
    bulk_set_limits
handle-IsValid (add_secret l k) = done (add-IsValid l k)
handle-IsValid (remove_secret l force) = remove-IsValid l force
handle-IsValid (rotate_secret l) = done (rotate-IsValid l)
handle-IsValid (toggle_secret l b) = toggle-IsValid l b
handle-IsValid (limit_secret l limits) = set_limits-IsValid l limits
handle-IsValid (note_secret l notes) = update_notes-IsValid l notes
handle-IsValid (rename_secret old new) = rename-IsValid old new
handle-IsValid (extend_secret l days) = extend-IsValid l days
handle-IsValid expire_secrets = done disable_expired-IsValid
handle-IsValid (tag_secret l tags) = Keeps-bind (Keeps-require l) (λ _. update_tags-IsValid l tags)
handle-IsValid (archive_secret l) = Keeps-bind (Keeps-require l) (λ _. archive-IsValid l)
handle-IsValid (unarchive_secret l) = Keeps-bind (Keeps-require l) (λ _. unarchive-IsValid l)
handle-IsValid (clone_secret source l) = done (clone-IsValid source l)
handle-IsValid (extend_all ls days) = done (
    Keeps-bind (Keeps-guard _ _)
      (λ _. Keeps-bind (Keeps-expiry_in days) (λ e. bulk_extend_expiry-IsValid ls e true)))
handle-IsValid (rotate_all ls) = done (
    Keeps-bind (Keeps-new_keys ls)
      (λ keys. Keeps-bind (bulk_rotate_keys-IsValid ls keys) (λ n. Keeps-pure _)))
handle-IsValid (toggle_all ls b) =
    done (Keeps-bind (Keeps-leaves_enabled ls b) (λ _. bulk_toggle_enabled-IsValid ls b))
handle-IsValid (limit_all ls limits) = done (bulk_set_limits-IsValid ls limits)
handle-IsValid (import_list es) = done (import_secrets-IsValid es)

-- From tables whose secrets have distinct labels and ascending ids and number at most 1000, any
-- sequence of requests leaves them so, whichever database calls fail.
pub serve-IsValid : (qs : List Request) (s : Sys) → IsValid s.db → IsValid (serve qs s).db
unfolding serve
serve-IsValid [] s h = h
serve-IsValid (q ∷ qs) s h = serve-IsValid qs (handle q s).1 ((handle-IsValid q).at s h)
