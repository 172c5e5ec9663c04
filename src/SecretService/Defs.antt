-- ===== src/SecretService/Defs.antt =====
-- internal/service/secret_service.go: the methods over one secret, and those over many labels.
use popu_gate.Prelude.{
  ℕ, ℤ, pos, Bool, true, false, not, ◌&&◌, Str, str_eq, List, [], ◌∷◌, ◌++◌, Option, none, some,
  if◌then◌else◌, ltb, ltb_ℤ, leb_ℤ,
}
use popu_gate.Model.Secret.{Secret, validate_label, max_secrets}
use popu_gate.Sys.{
  M, pure, raise, guard, now, calendar, ◌>>=◌, ◌>>◌, invalid_label, too_many_secrets,
  already_exists, not_found, bad_key, last_enabled, over_limit, bad_days,
}
use popu_gate.SecretStore
use popu_gate.SecretStore.{Limits, if_set, unix}
use popu_gate.Telemt.{validate_secret_key, generate_secret}

-- `if sec == nil { return … not found }`
abbrev pub or_not_found : Str → Option Secret → M Secret
or_not_found label none = raise (not_found label)
or_not_found label (some sec) = pure sec

abbrev pub require : Str → M Secret
require label = do found ← SecretStore.get_by_label label; or_not_found label found

-- `if existing != nil { return … already exists }`
abbrev pub or_exists : Str → Option Secret → M (Unit {0})
or_exists label none = pure tt
or_exists label (some sec) = raise (already_exists label)

abbrev pub ensure_free : Str → M (Unit {0})
ensure_free label = do found ← SecretStore.get_by_label label; or_exists label found

abbrev pub ensure_room : M (Unit {0})
ensure_room = do n ← SecretStore.count; guard (ltb n max_secrets) too_many_secrets

-- An empty key is generated, any other is checked.
unfoldable pub choose_key : Str → M Str
choose_key key =
    if str_eq key [] then generate_secret else do guard (validate_secret_key key) bad_key; pure key

-- A `model.Secret` literal: the fields that it leaves out are zero.
abbrev pub blank : Secret
blank = record {
  id = 0;
  label = [];
  secret_key = [];
  created_at = pos 0;
  enabled = false;
  max_conns = pos 0;
  max_ips = pos 0;
  quota_bytes = pos 0;
  rate_limit_up_bps = pos 0;
  rate_limit_down_bps = pos 0;
  expires_at = [];
  notes = [];
  tags = [];
  archived_at = pos 0;
  traffic_in = pos 0;
  traffic_out = pos 0;
}

unfoldable pub add : Str → Str → M Secret
unfolding choose_key
add label key = do
  guard (validate_label label) invalid_label
  ensure_room
  ensure_free label
  k ← choose_key key
  t ← now
  SecretStore.create
      (record blank { label = label; secret_key = k; enabled = true; created_at = unix t })

-- The test that guards the last enabled secret, made only where `needed`.
abbrev pub keep_one_enabled : Bool → M (Unit {0})
keep_one_enabled false = pure tt
keep_one_enabled true = do n ← SecretStore.count_enabled; guard (ltb 1 n) last_enabled

unfoldable pub remove : Str → Bool → M (Unit {0})
remove label force = do
  sec ← require label
  keep_one_enabled (sec.enabled && not force)
  SecretStore.delete label

unfoldable pub rotate : Str → M Secret
rotate label = do
  sec ← require label
  key ← generate_secret
  let fresh = record sec { secret_key = key }
  SecretStore.update fresh
  pure fresh

unfoldable pub toggle : Str → Bool → M (Unit {0})
toggle label enable = do
  sec ← require label
  keep_one_enabled (not enable)
  SecretStore.update (record sec { enabled = enable })

abbrev pub max_limit : ℤ
max_limit = pos 1_000_000

unfoldable pub set_limits : Str → Limits → M (Unit {0})
set_limits label l = do
  sec ← require label
  guard (leb_ℤ l.max_conns max_limit) over_limit
  guard (leb_ℤ l.max_ips max_limit) over_limit
  SecretStore.update (SecretStore.with_limits l sec)

unfoldable pub update_notes : Str → Str → M (Unit {0})
update_notes label notes = do sec ← require label; SecretStore.update (record sec { notes = notes })

unfoldable pub rename : Str → Str → M (Unit {0})
rename old new = do
  guard (validate_label new) invalid_label
  require old
  ensure_free new
  SecretStore.rename_label old new

-- `time.Now().AddDate(0, 0, days).Format(time.RFC3339)`
unfoldable pub expiry_in : ℤ → M Str
expiry_in days = do t ← now; env ← calendar; pure (env.format_rfc3339 (env.add_days t days))

unfoldable pub extend : Str → ℤ → M (Unit {0})
unfolding expiry_in
extend label days = do
  guard (ltb_ℤ (pos 0) days) bad_days
  sec ← require label
  expires ← expiry_in days
  SecretStore.extend_expiry label expires (not sec.enabled)

unfoldable pub disable_expired : M ℕ
disable_expired = SecretStore.disable_expired

unfoldable pub set_tags : Str → Str → M (Unit {0})
set_tags label tags = do require label; SecretStore.update_tags label tags

unfoldable pub archive : Str → M (Unit {0})
archive label = do require label; SecretStore.archive label

unfoldable pub unarchive : Str → M (Unit {0})
unarchive label = do require label; SecretStore.unarchive label

-- The struct that `Clone` builds from its source.
abbrev pub cloned : Str → Str → ℤ → Secret → Secret
cloned label key created src = record blank {
  label = label;
  secret_key = key;
  enabled = src.enabled;
  max_conns = src.max_conns;
  max_ips = src.max_ips;
  quota_bytes = src.quota_bytes;
  expires_at = src.expires_at;
  notes = src.notes;
  tags = src.tags;
  created_at = created;
}

unfoldable pub clone : Str → Str → M Secret
clone source label = do
  guard (validate_label label) invalid_label
  ensure_free label
  ensure_room
  src ← require source
  key ← generate_secret
  t ← now
  SecretStore.create (cloned label key (unix t) src)

unfoldable pub bulk_extend : List Str → ℤ → M ℕ
unfolding expiry_in
bulk_extend labels days = do
  guard (ltb_ℤ (pos 0) days) bad_days
  expires ← expiry_in days
  SecretStore.bulk_extend_expiry labels expires true

-- The keys of the loop; a later key of the same label takes its place.
unfoldable pub new_keys : List Str → M (List (Str × Str))
new_keys [] = pure []
new_keys (l ∷ ls) = do key ← generate_secret; rest ← new_keys ls; pure (rest ++ (l, key) ∷ [])

unfoldable pub bulk_rotate : List Str → M (ℕ × List Str)
unfolding new_keys
bulk_rotate labels = do
  keys ← new_keys labels
  n ← SecretStore.bulk_rotate_keys labels keys
  pure (n, labels)

-- The check before the transaction, skipped when enabling.
abbrev pub leaves_enabled : List Str → Bool → M (Unit {0})
leaves_enabled labels true = pure tt
leaves_enabled labels false = do
  total ← SecretStore.count_enabled
  to_disable ← SecretStore.count_enabled_by_labels labels
  guard (ltb to_disable total) last_enabled

unfoldable pub bulk_toggle : List Str → Bool → M ℕ
bulk_toggle labels enable = do
  leaves_enabled labels enable
  SecretStore.bulk_toggle_enabled labels enable

unfoldable pub bulk_set_limits : List Str → Limits → M ℕ
bulk_set_limits labels l = SecretStore.bulk_set_limits labels l
