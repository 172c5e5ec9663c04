-- ===== src/SecretService/Import.antt =====
-- `ImportSecrets` of internal/service/secret_service.go.
use popu_gate.Prelude.{
  ◌+◌, true, not, Str, str_eq, List, [], ◌∷◌, Option, none, some, if◌then◌else◌, leb, length,
}
use popu_gate.Model.Secret.{Secret, validate_label, max_secrets}
use popu_gate.Sys.{M, pure, guard, now, attempt, ◌>>=◌, ◌>>◌, too_many_secrets}
use popu_gate.SecretStore
use popu_gate.SecretStore.{unix}
use popu_gate.Telemt.{validate_secret_key, generate_secret}

-- `ImportResult`; an entry of `errors` is kept by its label, without the reason in words.
pub record ImportResult : Type 0 where
  pub imported : List Str
  pub skipped : List Str
  pub errors : List Str

-- What happened to one entry.
pub data Outcome : Type 0 where
  created existed failed : Outcome

-- `e.SecretKey, _ = telemt.GenerateSecret()`: a failure leaves the empty key.
abbrev pub or_empty : Option Str → Str
or_empty none = []
or_empty (some k) = k

abbrev pub created_or_failed : Option Secret → Outcome
created_or_failed none = failed
created_or_failed (some sec) = created

abbrev pub create_entry : Secret → Str → M Outcome
create_entry e key = do
  t ← now
  done ←
      attempt
        (SecretStore.create (record e { secret_key = key; enabled = true; created_at = unix t }))
  pure (created_or_failed done)

abbrev pub import_new : Secret → M Outcome
import_new e =
    if str_eq e.secret_key []
    then (do key ← attempt generate_secret; create_entry e (or_empty key))
    else if validate_secret_key e.secret_key
    then create_entry e e.secret_key
    else pure failed

-- The lookup of the label: it failed, or found a secret, or found none.
abbrev pub import_found : Secret → Option (Option Secret) → M Outcome
import_found e none = pure failed
import_found e (some (some sec)) = pure existed
import_found e (some none) = import_new e

-- One round of the loop; an empty label fails `ValidateLabel` too.
unfoldable pub import_one : Secret → M Outcome
import_one e =
    if str_eq e.label []
    then pure failed
    else if not (validate_label e.label)
    then pure failed
    else (do found ← attempt (SecretStore.get_by_label e.label); import_found e found)

abbrev pub recorded : Str → Outcome → ImportResult → ImportResult
recorded l created r = record r { imported = l ∷ r.imported }
recorded l existed r = record r { skipped = l ∷ r.skipped }
recorded l failed r = record r { errors = l ∷ r.errors }

unfoldable pub import_all : List Secret → M ImportResult
unfolding import_one
import_all [] = pure (record { imported = []; skipped = []; errors = [] })
import_all (e ∷ es) = do
  outcome ← import_one e
  rest ← import_all es
  pure (recorded e.label outcome rest)

unfoldable pub import_secrets : List Secret → M ImportResult
unfolding import_all
import_secrets entries = do
  n ← SecretStore.count
  guard (leb (n + length entries) max_secrets) too_many_secrets
  import_all entries
