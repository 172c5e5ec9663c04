-- ===== src/SecretStore/Valid.antt =====
-- The invariant of the table `secrets`, and methods of internal/store/secret_store.go under it.
pub mod Methods
use popu_gate.Prelude.{
  ℕ, suc, ◌≤◌, ◌<◌, ◌≡◌, refl, Bool, true, false, not, ◌&&◌, ℤ, Str, str_eq, List, [], ◌∷◌, Option,
  none, some, arith, length, Bool-cases, inl, inr, if◌then◌else◌,
}
use popu_gate.Model.Secret.{Secret, max_secrets}
use popu_gate.Model.Tables.{Tables}
use popu_gate.Sys.{M, exec}
use popu_gate.Sys.Keeps.{
  Keeps, Keeps-exec, Keeps-write, Keeps-checked, Keeps-bind, Keeps-pure, keeps_rules,
}
use popu_gate.SecretStore.Rows.{
  update_where, delete_where, append_row, has_label, rows_with, disable_id, enabled_with_id,
  users_clash, rename_users, rename_history,
}
use popu_gate.SecretStore.Rows.Unique.{
  Unique, KeepsLabel, update_where-Unique, delete_where-Unique, append_row-Unique,
  length-update_where, length-delete_where, length-append_row, disable_id-Unique, renamed-Unique,
}
use popu_gate.SecretStore.Rows.Ids.{
  Ascending, KeepsId, update_where-Ascending, delete_where-Ascending, append_row-Ascending,
  disable_id-Ascending, length-disable_id,
}
use popu_gate.SecretStore.Defs.{
  set_where, rename_secret, rename_traffic, rename_records, rename_label, delete,
}
use popu_gate.SecretStore.Expiry.{disable_row}

-- Distinct labels; distinct ids, ascending and given out already; no more rows than the maximum.
pub record IsValid (db : Tables) : Type 0 where
  pub unique : Unique db.secrets
  pub ascending : Ascending 0 db.secret_seq db.secrets
  pub room : length db.secrets ≤ max_secrets

module _ (l : Str) (f : Secret → Secret) (kl : KeepsLabel f) (ki : KeepsId f) where
  pub set_where-IsValid : Keeps IsValid (exec (set_where l f))
  unfolding set_where
  set_where-IsValid =
      Keeps-write (λ db. rows_with l db.secrets)
        (λ db. record db { secrets = update_where l f db.secrets })
        λ db v. record {
          unique = update_where-Unique l f db.secrets kl v.unique;
          ascending = update_where-Ascending l f 0 db.secret_seq db.secrets ki v.ascending;
          room = omega (arith, v.room, length-update_where l f db.secrets);
        }

pub disable_row-IsValid : (i : ℕ) → Keeps IsValid (exec (disable_row i))
unfolding disable_row
disable_row-IsValid i =
    Keeps-write (λ db. enabled_with_id i db.secrets)
      (λ db. record db { secrets = disable_id i db.secrets })
      λ db v. record {
        unique = disable_id-Unique i db.secrets v.unique;
        ascending = disable_id-Ascending i 0 db.secret_seq db.secrets v.ascending;
        room = omega (arith, v.room, length-disable_id i db.secrets);
      }

pub delete-IsValid : (l : Str) → Keeps IsValid (delete l)
unfolding delete
delete-IsValid l =
    Keeps-write (λ _. tt) (λ db. record db { secrets = delete_where l db.secrets })
      λ db v. record {
        unique = delete_where-Unique l db.secrets v.unique;
        ascending = delete_where-Ascending l 0 db.secret_seq db.secrets v.ascending;
        room = omega (arith, v.room, length-delete_where l db.secrets);
      }

rename_secret-IsValid : (old new : Str) → Keeps IsValid (exec (rename_secret old new))
unfolding rename_secret
rename_secret-IsValid old new =
    Keeps-checked
      (λ db. has_label old db.secrets && has_label new db.secrets && not (str_eq old new))
      (λ db. rows_with old db.secrets)
      (λ db. record db { secrets = update_where old (λ r. record r { label = new }) db.secrets })
      λ db v allowed. record {
        unique = renamed-Unique old new db.secrets allowed v.unique;
        ascending =
            update_where-Ascending old (λ r. record r { label = new }) 0 db.secret_seq db.secrets
              (λ r. refl) v.ascending;
        room =
            omega
              (arith, v.room, length-update_where old (λ r. record r { label = new }) db.secrets);
      }

rename_traffic-IsValid : (old new : Str) → Keeps IsValid (exec (rename_traffic old new))
unfolding rename_traffic
rename_traffic-IsValid old new =
    Keeps-checked
      (λ db. users_clash old new db.traffic_user db.traffic_user && not (str_eq old new)) (λ _. tt)
      (λ db. record db { traffic_user = rename_users old new db.traffic_user })
      λ db v _. record { unique = v.unique; ascending = v.ascending; room = v.room }

rename_records-IsValid : (old new : Str) → Keeps IsValid (exec (rename_records old new))
unfolding rename_records
rename_records-IsValid old new =
    Keeps-write (λ _. tt)
      (λ db. record db { traffic_history = rename_history old new db.traffic_history })
      λ db v. record { unique = v.unique; ascending = v.ascending; room = v.room }

pub rename_label-IsValid : (old new : Str) → Keeps IsValid (rename_label old new)
unfolding rename_label
rename_label-IsValid old new =
    search (keeps_rules, rename_secret-IsValid, rename_traffic-IsValid, rename_records-IsValid)
