-- ===== src/Examples/Secrets.antt =====
-- The secrets at concrete inputs.
use popu_gate.Prelude.{◌≤◌, refl, true, false, codes, List, [], ◌∷◌, arith, str_eq}
use popu_gate.SecretStore.Rows.{enabled_rows, has_label}
use popu_gate.SecretStore.Rows.Unique.{Unique}
use popu_gate.SecretStore.Valid.{IsValid}
use popu_gate.SecretService.{toggle, remove, bulk_toggle, disable_expired}
use popu_gate.SecretService.Serve.{
  Request, add_secret, remove_secret, clone_secret, rename_secret, toggle_all, expire_secrets,
  serve, serve-IsValid,
}
use popu_gate.SecretService.Enabled.{toggle-enabled_rows, remove-enabled_rows}
use popu_gate.SecretService.EnabledAll.{bulk_toggle-enabled_rows}
use popu_gate.SecretService.Expired.{disable_expired-enabled_rows}
use popu_gate.Examples.Samples.{two_secrets, start, start_stormy}

two-Unique : Unique two_secrets.secrets
unfolding has_label str_eq
two-Unique = (refl, (refl, tt))

pub two-enabled : 1 ≤ enabled_rows two_secrets.secrets
unfolding enabled_rows
two-enabled = omega arith

pub two-IsValid : IsValid two_secrets
two-IsValid = record { unique = two-Unique; ascending = omega arith; room = omega arith }

abbrev requests : List Request
requests =
    add_secret (codes "carl") []
    ∷ clone_secret (codes "ann") (codes "dora")
    ∷ rename_secret (codes "bob") (codes "ann")
    ∷ toggle_all (codes "ann" ∷ codes "carl" ∷ []) false
    ∷ expire_secrets
    ∷ remove_secret (codes "bob") true
    ∷ []

serve-IsValid_example : IsValid (serve requests start_stormy).db
serve-IsValid_example = serve-IsValid requests start_stormy two-IsValid

toggle-enabled_rows_example : 1 ≤ enabled_rows (toggle (codes "ann") false start).1.db.secrets
toggle-enabled_rows_example = toggle-enabled_rows (codes "ann") start two-Unique two-enabled

remove-enabled_rows_example : 1 ≤ enabled_rows (remove (codes "ann") false start).1.db.secrets
remove-enabled_rows_example = remove-enabled_rows (codes "ann") start two-Unique two-enabled

bulk_toggle-enabled_rows_example :
    1 ≤ enabled_rows (bulk_toggle (codes "bob" ∷ codes "bob" ∷ []) false start_stormy).1.db.secrets
bulk_toggle-enabled_rows_example =
    bulk_toggle-enabled_rows (codes "bob" ∷ codes "bob" ∷ []) start_stormy two-enabled

disable_expired-enabled_rows_example : 1 ≤ enabled_rows (disable_expired start).1.db.secrets
disable_expired-enabled_rows_example = disable_expired-enabled_rows start (omega arith) two-enabled
