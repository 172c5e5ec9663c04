-- ===== src/SecretStore/Defs.antt =====
-- internal/store/secret_store.go: the methods that read or write single rows.
use mathlib.Core.Option
use popu_gate.Prelude.{
  ℕ, suc, ℤ, pos, negsuc, ◌/◌, Bool, not, ◌&&◌, Str, str_eq, List, map, Option, none, some,
  if◌then◌else◌, ◌==◌, length,
}
use popu_gate.Model.Secret.{Secret}
use popu_gate.Model.Tables.{Tables}
use popu_gate.Sys.{M, query, exec, now, transaction, pure, guard, ◌>>=◌, ◌>>◌, no_rows}
use popu_gate.SecretStore.Rows.{
  find, has_label, update_where, rows_with, delete_where, append_row, enabled_rows, enabled_rows_in,
  enabled_labels, with_traffic, rename_users, users_clash, rename_history,
}

-- `t.Unix()` of an instant in nanoseconds: the seconds, rounded down.
unfoldable pub unix : ℤ → ℤ
unix (pos n) = pos (n / 1_000_000_000)
unix (negsuc n) = negsuc (n / 1_000_000_000)

unfoldable pub list : M (List Secret)
list = query (λ db. map (with_traffic db.traffic_user) db.secrets)

-- A missing row is no error: `none` is the nil of the source.
unfoldable pub get_by_label : Str → M (Option Secret)
get_by_label label = query (λ db. Option.map (with_traffic db.traffic_user) (find label db.secrets))

-- The columns that INSERT writes; created_at and archived_at take the defaults of the schema.
abbrev pub inserted : ℕ → ℤ → Secret → Secret
inserted new_id created sec = record sec {
  id = new_id;
  created_at = created;
  archived_at = pos 0;
  traffic_in = pos 0;
  traffic_out = pos 0;
}

unfoldable pub insert_secret : ℤ → Secret → Tables → Option (ℕ × Tables)
insert_secret created sec db =
    if has_label sec.label db.secrets
    then none
    else some (
      suc db.secret_seq,
      record db {
        secrets = append_row db.secrets (inserted (suc db.secret_seq) created sec);
        secret_seq = suc db.secret_seq;
      },
    )

-- The caller's struct comes back with its new id.
unfoldable pub create : Secret → M Secret
unfolding insert_secret
create sec = do
  t ← now
  new_id ← exec (insert_secret (unix t) sec)
  pure (record sec { id = new_id })

-- UPDATE at one label; the result is RowsAffected.
unfoldable pub set_where : Str → (Secret → Secret) → Tables → Option (ℕ × Tables)
set_where label f db =
    some (rows_with label db.secrets, record db { secrets = update_where label f db.secrets })

-- The columns that `Update` writes.
abbrev pub columns : Secret → Secret → Secret
columns sec r = record r {
  secret_key = sec.secret_key;
  enabled = sec.enabled;
  max_conns = sec.max_conns;
  max_ips = sec.max_ips;
  quota_bytes = sec.quota_bytes;
  rate_limit_up_bps = sec.rate_limit_up_bps;
  rate_limit_down_bps = sec.rate_limit_down_bps;
  expires_at = sec.expires_at;
  notes = sec.notes;
  tags = sec.tags;
}

unfoldable pub update : Secret → M (Unit {0})
unfolding set_where
update sec = do exec (set_where sec.label (columns sec)); pure tt

unfoldable pub delete : Str → M (Unit {0})
delete label = exec (λ db. some (tt, record db { secrets = delete_where label db.secrets }))

unfoldable pub count_enabled : M ℕ
count_enabled = query (λ db. enabled_rows db.secrets)

-- With no labels the result is 0 and no query is made.
unfoldable pub count_enabled_by_labels : List Str → M ℕ
count_enabled_by_labels labels =
    if length labels == 0 then pure 0 else query (λ db. enabled_rows_in labels db.secrets)

unfoldable pub count : M ℕ
count = query (λ db. length db.secrets)

unfoldable pub list_enabled_labels : M (List Str)
list_enabled_labels = query (λ db. enabled_labels db.secrets)

-- UPDATE secrets SET label = new WHERE label = old, under UNIQUE(label).
unfoldable pub rename_secret : Str → Str → Tables → Option (ℕ × Tables)
rename_secret old new db =
    if has_label old db.secrets && has_label new db.secrets && not (str_eq old new)
    then none
    else some (
      rows_with old db.secrets,
      record db { secrets = update_where old (λ r. record r { label = new }) db.secrets },
    )

-- UPDATE traffic_user, under its primary key (label, instance_id).
unfoldable pub rename_traffic : Str → Str → Tables → Option (Unit {0} × Tables)
rename_traffic old new db =
    if users_clash old new db.traffic_user db.traffic_user && not (str_eq old new)
    then none
    else some (tt, record db { traffic_user = rename_users old new db.traffic_user })

unfoldable pub rename_records : Str → Str → Tables → Option (Unit {0} × Tables)
rename_records old new db =
    some (tt, record db { traffic_history = rename_history old new db.traffic_history })

unfoldable pub rename_label : Str → Str → M (Unit {0})
unfolding rename_secret rename_traffic rename_records
rename_label old new = transaction do
  n ← exec (rename_secret old new)
  guard (not (n == 0)) no_rows
  exec (rename_traffic old new)
  exec (rename_records old new)

-- One UPDATE that must find its row.
unfoldable pub set_one : Str → (Secret → Secret) → M (Unit {0})
unfolding set_where
set_one label f = do n ← exec (set_where label f); guard (not (n == 0)) no_rows

abbrev pub extended : Str → Bool → Secret → Secret
extended expires reenable r =
    if reenable
    then record r { expires_at = expires; enabled = Bool.true }
    else record r { expires_at = expires }

unfoldable pub extend_expiry : Str → Str → Bool → M (Unit {0})
unfolding set_one
extend_expiry label expires reenable = set_one label (extended expires reenable)

unfoldable pub update_tags : Str → Str → M (Unit {0})
unfolding set_one
update_tags label tags = set_one label (λ r. record r { tags = tags })

unfoldable pub archive : Str → M (Unit {0})
unfolding set_one
archive label = do t ← now; set_one label (λ r. record r { archived_at = unix t })

unfoldable pub unarchive : Str → M (Unit {0})
unfolding set_one
unarchive label = set_one label (λ r. record r { archived_at = pos 0 })
