-- ===== src/SecretService/Enabled.antt =====
-- Lemmas on the guard of the last enabled secret: `Toggle` and `Remove` of internal/service/secret_service.go.
use mathlib.Core.Option
use popu_gate.Prelude.{
  ◌≤◌, ◌≡◌, refl, Bool, true, false, ◌&&◌, Str, Option, none, some, arith, ap, sym, ◌∙◌,
}
use popu_gate.Model.Secret.{Secret}
use popu_gate.Model.Tables.{Tables}
use popu_gate.Sys.{Sys, ◌>>◌}
use popu_gate.Sys.Keeps.{Keeps-pure}
use popu_gate.Sys.Ensures.{
  Ensures, ensure_after, ensure_bind, ensure_pure, ensure_query, ensure_guard, ensure_write,
  ensure_weaken, ensure_raise, Ensures-state,
}
use popu_gate.SecretStore
use popu_gate.SecretStore.Rows.{
  find, with_traffic, enabled_rows, update_where, delete_where, rows_with,
}
use popu_gate.SecretStore.Rows.Unique.{
  Unique, enabled_rows-update_where, enabled_rows-delete_where, enabled_rows-delete_disabled,
}
use popu_gate.SecretService.Defs.{or_not_found, require, toggle, remove, keep_one_enabled}
use popu_gate.SecretService.Valid.{Keeps-require}

-- Distinct labels, and at least one enabled secret.
abbrev pub IsServing : Tables → Type 0
IsServing db = Unique db.secrets × (1 ≤ enabled_rows db.secrets)

abbrev pub HasEnabled : Tables → Type 0
HasEnabled db = 1 ≤ enabled_rows db.secrets

-- Two enabled secrets, as the guard finds them.
abbrev pub HasTwo : Tables → Type 0
HasTwo db = Unique db.secrets × (2 ≤ enabled_rows db.secrets)

keep_one_enabled-HasTwo : Ensures IsServing (keep_one_enabled true) (λ _. HasTwo) HasEnabled
unfolding SecretStore.count_enabled
keep_one_enabled-HasTwo =
    ensure_bind
      (ensure_query {Q = λ n db. IsServing db × (n ≡ enabled_rows db.secrets)}
        (λ db. enabled_rows db.secrets) (λ db h. (h, refl)) (λ db h. h.1))
      (λ n. ensure_guard _ _ (λ db h more. (h.0.0, ground (arith, h.1, more))) (λ db h. h.0.1))

pub update-HasEnabled :
    (sec : Secret) → Ensures HasTwo (SecretStore.update sec) (λ _. HasEnabled) HasEnabled
unfolding SecretStore.update
update-HasEnabled sec =
    ensure_bind
      (ensure_write {Q = λ _. HasEnabled} (λ db. rows_with sec.label db.secrets)
        (λ db. record db { secrets = update_where sec.label (SecretStore.columns sec) db.secrets })
        (λ db h. omega (
          arith,
          h.1,
          enabled_rows-update_where sec.label (SecretStore.columns sec) db.secrets h.0,
        ))
        (λ db h. omega (arith, h.1)))
      (λ n. ensure_pure tt (λ db h. h))

-- Disabling a secret: of two enabled ones at least, one at most is lost.
toggle-HasEnabled : (l : Str) → Ensures IsServing (toggle l false) (λ _. HasEnabled) HasEnabled
unfolding toggle
toggle-HasEnabled l =
    ensure_after (Keeps-require l)
      (λ sec.
        ensure_bind keep_one_enabled-HasTwo
          (λ _. update-HasEnabled (record sec { enabled = false })))
      (λ db h. h.1)

-- Toggle to disabled, from distinct labels and one or more enabled secrets: at least one secret
-- is enabled behind the call, whichever database calls fail.
pub toggle-enabled_rows :
    (l : Str) (s : Sys)
    → Unique s.db.secrets
    → 1 ≤ enabled_rows s.db.secrets
    → 1 ≤ enabled_rows (toggle l false s).1.db.secrets
toggle-enabled_rows l s u h = Ensures-state (toggle-HasEnabled l) s (u, h)

delete-HasEnabled : (l : Str) → Ensures HasTwo (SecretStore.delete l) (λ _. HasEnabled) HasEnabled
unfolding SecretStore.delete
delete-HasEnabled l =
    ensure_write (λ _. tt) (λ db. record db { secrets = delete_where l db.secrets })
      (λ db h. omega (arith, h.1, enabled_rows-delete_where l db.secrets h.0))
      (λ db h. omega (arith, h.1))

-- The row that a successful lookup stands for.
abbrev Found : Str → Secret → Tables → Type 0
Found l sec db = (r : Secret) × (find l db.secrets ≡ some r) × (sec.enabled ≡ r.enabled)

the_row :
    (l : Str) (sec : Secret) (db : Tables)
    → some sec ≡ Option.map (with_traffic db.traffic_user) (find l db.secrets)
    → Found l sec db
the_row l sec db e =
    let (r, f, g) = (Option.map-eq-some_iff (with_traffic db.traffic_user) _).0 (sym e) in
    (r, f, ap (λ (x : Secret). x.enabled) (sym g))

or_not_found-Found :
    (l : Str) (o : Option Secret)
    → Ensures
        (λ db. IsServing db × (o ≡ Option.map (with_traffic db.traffic_user) (find l db.secrets)))
        (or_not_found l o)
        (λ sec db. IsServing db × Found l sec db)
        HasEnabled
or_not_found-Found l none = ensure_raise _ (λ db h. h.0.1)
or_not_found-Found l (some sec) = ensure_pure sec (λ db h. (h.0, the_row l sec db h.1))

require-Found :
    (l : Str) → Ensures IsServing (require l) (λ sec db. IsServing db × Found l sec db) HasEnabled
unfolding SecretStore.get_by_label
require-Found l =
    ensure_bind (ensure_query _ (λ db h. (h, refl)) (λ db h. h.1)) (or_not_found-Found l)

delete_disabled-HasEnabled :
    (l : Str) (sec : Secret)
    → sec.enabled ≡ false
    → Ensures
        (λ db. IsServing db × Found l sec db)
        (SecretStore.delete l)
        (λ _. HasEnabled)
        HasEnabled
unfolding SecretStore.delete
delete_disabled-HasEnabled l sec off =
    ensure_write (λ _. tt) (λ db. record db { secrets = delete_where l db.secrets })
      (λ db h.
        let (u, n) = h.0 in
        let (r, f, g) = h.1 in
        omega (arith, n, enabled_rows-delete_disabled l db.secrets r u f (sym g ∙ off)))
      (λ db h. h.0.1)

remove_row-HasEnabled :
    (l : Str) (sec : Secret) (on : Bool)
    → sec.enabled ≡ on
    → Ensures
        (λ db. IsServing db × Found l sec db)
        (keep_one_enabled (on && true) >> SecretStore.delete l)
        (λ _. HasEnabled)
        HasEnabled
remove_row-HasEnabled l sec true e =
    ensure_bind (ensure_weaken (λ db h. h.0) keep_one_enabled-HasTwo (λ _ db h. h) (λ db h. h))
      (λ _. delete-HasEnabled l)
remove_row-HasEnabled l sec false e =
    ensure_after (Keeps-pure tt) (λ _. delete_disabled-HasEnabled l sec e) (λ db h. h.0.1)

-- Remove without force, from distinct labels and one or more enabled secrets: at least one secret
-- is enabled behind the call, whichever database calls fail.
pub remove-enabled_rows :
    (l : Str) (s : Sys)
    → Unique s.db.secrets
    → 1 ≤ enabled_rows s.db.secrets
    → 1 ≤ enabled_rows (remove l false s).1.db.secrets
unfolding remove
remove-enabled_rows l s u h =
    Ensures-state
      (ensure_bind (require-Found l) (λ sec. remove_row-HasEnabled l sec sec.enabled refl)) s (u, h)
