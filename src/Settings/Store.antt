-- ===== src/Settings/Store.antt =====
-- internal/store/settings_store.go: the settings as rows of keys and values.
use popu_gate.Prelude.{
  ℤ, pos, Bool, true, false, Str, String, codes, str_eq, List, [], ◌∷◌, Option, none, some,
  if◌then◌else◌,
}
use popu_gate.Sys.{M, query, exec, transaction, pure, ◌>>=◌, ◌>>◌}
use popu_gate.SecretStore.{parse_int}
use popu_gate.Settings.Defs.{Settings, default_settings}
use popu_gate.Settings.Validate.{validate}

-- The row of a key; the key is the table's primary key.
unfoldable pub lookup : Str → List (Str × Str) → Option Str
lookup k [] = none
lookup k ((j, v) ∷ kv) = if str_eq j k then some v else lookup k kv

abbrev pub or_zero : Option Str → Str
or_zero none = []
or_zero (some v) = v

-- `Get`: the empty text for a missing key.
unfoldable pub get : Str → M Str
unfolding lookup
get k = query (λ db. or_zero (lookup k db.settings))

-- INSERT OR REPLACE
unfoldable pub put : Str → Str → List (Str × Str) → List (Str × Str)
put k v [] = (k, v) ∷ []
put k v ((j, w) ∷ kv) = if str_eq j k then (k, v) ∷ kv else (j, w) ∷ put k v kv

unfoldable pub save_all : List (Str × Str) → M (Unit {0})
save_all [] = pure tt
save_all ((k, v) ∷ updates) = do
  exec (λ db. some (tt, record db { settings = put k v db.settings }))
  save_all updates

-- `Save`, over the entries of the map in the order in which the loop meets them.
unfoldable pub save : List (Str × Str) → M (Unit {0})
unfolding save_all
save updates = transaction (save_all updates)

abbrev pub or_default : Option ℤ → ℤ → ℤ
or_default none d = d
or_default (some n) d = n

abbrev pub int_of : Option Str → ℤ → ℤ
int_of none d = d
int_of (some v) d = if str_eq v [] then d else or_default (parse_int v) d

-- `getInt` and `getInt64`: `strconv.Atoi` parses as `ParseInt` does where int has 64 bits.
unfoldable pub get_int : List (Str × Str) → String → ℤ → ℤ
unfolding lookup
get_int kv key d = int_of (lookup (codes key) kv) d

abbrev pub string_of : Option Str → Str → Str
string_of none d = d
string_of (some v) d = v

unfoldable pub get_string : List (Str × Str) → String → Str → Str
unfolding lookup
get_string kv key d = string_of (lookup (codes key) kv) d

abbrev pub bool_of : Option Str → Bool → Bool
bool_of none d = d
bool_of (some v) d = str_eq v (codes "true")

unfoldable pub get_bool_default : List (Str × Str) → String → Bool → Bool
unfolding lookup
get_bool_default kv key d = bool_of (lookup (codes key) kv) d

unfoldable pub get_bool : List (Str × Str) → String → Bool
unfolding get_bool_default
get_bool kv key = get_bool_default kv key false

-- The fields that `Load` reads, before `Validate`.
unfoldable pub read_settings : List (Str × Str) → Settings
unfolding get_int get_string get_bool get_bool_default
read_settings kv = record default_settings {
  proxy_port = get_int kv "proxy_port" (pos 443);
  proxy_metrics_port = get_int kv "proxy_metrics_port" (pos 9090);
  proxy_domain = get_string kv "proxy_domain" (codes "cloudflare.com");
  proxy_concurrency = get_int kv "proxy_concurrency" (pos 8192);
  proxy_cpus = get_string kv "proxy_cpus" [];
  proxy_memory = get_string kv "proxy_memory" [];
  custom_ip = get_string kv "custom_ip" [];
  fake_cert_len = get_int kv "fake_cert_len" (pos 2048);
  proxy_protocol = get_bool kv "proxy_protocol";
  proxy_protocol_trusted_cidrs = get_string kv "proxy_protocol_trusted_cidrs" [];
  ad_tag = get_string kv "ad_tag" [];
  use_middle_proxy = get_bool_default kv "use_middle_proxy" true;
  geoblock_mode = get_string kv "geoblock_mode" (codes "blacklist");
  blocklist_countries = get_string kv "blocklist_countries" [];
  masking_enabled = get_bool kv "masking_enabled";
  masking_host = get_string kv "masking_host" [];
  masking_port = get_int kv "masking_port" (pos 443);
  masking_relay_max_bytes = get_int kv "masking_relay_max_bytes" (pos 0);
  unknown_sni_action = get_string kv "unknown_sni_action" (codes "mask");
  proxy_secret_url = get_string kv "proxy_secret_url" [];
  proxy_config_v4_url = get_string kv "proxy_config_v4_url" [];
  proxy_config_v6_url = get_string kv "proxy_config_v6_url" [];
  telegram_enabled = get_bool kv "telegram_enabled";
  telegram_bot_token = get_string kv "telegram_bot_token" [];
  telegram_chat_id = get_string kv "telegram_chat_id" [];
  telegram_interval = get_int kv "telegram_interval" (pos 6);
  telegram_alerts_enabled = get_bool kv "telegram_alerts_enabled";
  telegram_server_label = get_string kv "telegram_server_label" (codes "PopuGate");
  web_url = get_string kv "web_url" [];
  auto_update_enabled = get_bool kv "auto_update_enabled";
  secret_auto_rotate_days = get_int kv "secret_auto_rotate_days" (pos 0);
  maintenance_mode = get_bool kv "maintenance_mode";
  replication_enabled = get_bool kv "replication_enabled";
  replication_role = get_string kv "replication_role" (codes "standalone");
  replication_sync_interval = get_int kv "replication_sync_interval" (pos 60);
  replication_ssh_port = get_int kv "replication_ssh_port" (pos 22);
  replication_ssh_user = get_string kv "replication_ssh_user" (codes "root");
  replication_delete_extra = get_bool kv "replication_delete_extra";
  replication_ssh_key_path = get_string kv "replication_ssh_key_path" [];
  replication_exclude = get_string kv "replication_exclude" [];
  replication_restart_on_change = get_bool kv "replication_restart_on_change";
  replication_log = get_string kv "replication_log" [];
  debug = get_bool kv "debug";
  backup_retention_days = get_int kv "backup_retention_days" (pos 7);
  telemt_version = get_string kv "telemt_version" [];
  telemt_commit = get_string kv "telemt_commit" [];
  telemt_repo = get_string kv "telemt_repo" [];
  synlimit_enabled = get_bool kv "synlimit_enabled";
  synlimit_backend = get_string kv "synlimit_backend" (codes "nftables");
  synlimit_seconds = get_int kv "synlimit_seconds" (pos 60);
  synlimit_hitcount = get_int kv "synlimit_hitcount" (pos 48);
  synlimit_burst = get_int kv "synlimit_burst" (pos 1);
  sysctl_optimizations_enabled = get_bool kv "sysctl_optimizations_enabled";
  original_qdisc = get_string kv "original_qdisc" [];
  original_congestion_control = get_string kv "original_congestion_control" [];
  original_fast_open = get_string kv "original_fastopen" [];
}

-- `Load`
unfoldable pub load : M Settings
unfolding read_settings
load = do kv ← query (λ db. db.settings); pure (validate (read_settings kv))
