-- ===== src/Settings/Defs.antt =====
-- internal/model/settings.go: `Settings` and `DefaultSettings`.
use popu_gate.Prelude.{ℤ, pos, Bool, true, false, Str, codes, []}

pub record Settings : Type 0 where
  pub proxy_port : ℤ
  pub proxy_metrics_port : ℤ
  pub proxy_domain : Str
  pub proxy_concurrency : ℤ
  pub proxy_cpus : Str
  pub proxy_memory : Str
  pub custom_ip : Str
  pub fake_cert_len : ℤ
  pub proxy_protocol : Bool
  pub proxy_protocol_trusted_cidrs : Str
  pub ad_tag : Str
  pub use_middle_proxy : Bool
  pub geoblock_mode : Str
  pub blocklist_countries : Str
  pub masking_enabled : Bool
  pub masking_host : Str
  pub masking_port : ℤ
  pub masking_relay_max_bytes : ℤ
  pub unknown_sni_action : Str
  pub proxy_secret_url : Str
  pub proxy_config_v4_url : Str
  pub proxy_config_v6_url : Str
  pub telegram_enabled : Bool
  pub telegram_bot_token : Str
  pub telegram_chat_id : Str
  pub telegram_interval : ℤ
  pub telegram_alerts_enabled : Bool
  pub telegram_server_label : Str
  pub web_url : Str
  pub auto_update_enabled : Bool
  pub secret_auto_rotate_days : ℤ
  pub maintenance_mode : Bool
  pub replication_enabled : Bool
  pub replication_role : Str
  pub replication_sync_interval : ℤ
  pub replication_ssh_port : ℤ
  pub replication_ssh_user : Str
  pub replication_delete_extra : Bool
  pub replication_ssh_key_path : Str
  pub replication_exclude : Str
  pub replication_restart_on_change : Bool
  pub replication_log : Str
  pub debug : Bool
  pub backup_retention_days : ℤ
  pub telemt_version : Str
  pub telemt_commit : Str
  pub telemt_repo : Str
  pub synlimit_enabled : Bool
  pub synlimit_backend : Str
  pub synlimit_seconds : ℤ
  pub synlimit_hitcount : ℤ
  pub synlimit_burst : ℤ
  pub sysctl_optimizations_enabled : Bool
  pub original_qdisc : Str
  pub original_congestion_control : Str
  pub original_fast_open : Str

-- `DefaultSettings`: the fields that the literal leaves out are zero.
unfoldable pub default_settings : Settings
default_settings = record {
  proxy_port = pos 443;
  proxy_metrics_port = pos 9090;
  proxy_domain = codes "cloudflare.com";
  proxy_concurrency = pos 8192;
  proxy_cpus = [];
  proxy_memory = [];
  custom_ip = [];
  fake_cert_len = pos 2048;
  proxy_protocol = false;
  proxy_protocol_trusted_cidrs = [];
  ad_tag = [];
  use_middle_proxy = true;
  geoblock_mode = codes "blacklist";
  blocklist_countries = [];
  masking_enabled = true;
  masking_host = [];
  masking_port = pos 443;
  masking_relay_max_bytes = pos 0;
  unknown_sni_action = codes "mask";
  proxy_secret_url = [];
  proxy_config_v4_url = [];
  proxy_config_v6_url = [];
  telegram_enabled = false;
  telegram_bot_token = [];
  telegram_chat_id = [];
  telegram_interval = pos 6;
  telegram_alerts_enabled = true;
  telegram_server_label = codes "PopuGate";
  web_url = [];
  auto_update_enabled = true;
  secret_auto_rotate_days = pos 0;
  maintenance_mode = false;
  replication_enabled = false;
  replication_role = codes "standalone";
  replication_sync_interval = pos 60;
  replication_ssh_port = pos 22;
  replication_ssh_user = codes "root";
  replication_delete_extra = true;
  replication_ssh_key_path = [];
  replication_exclude = codes "relay_stats,backups,connection.log,.ssh,settings.db,replication";
  replication_restart_on_change = true;
  replication_log = [];
  debug = false;
  backup_retention_days = pos 7;
  telemt_version = [];
  telemt_commit = [];
  telemt_repo = [];
  synlimit_enabled = false;
  synlimit_backend = codes "nftables";
  synlimit_seconds = pos 60;
  synlimit_hitcount = pos 48;
  synlimit_burst = pos 1;
  sysctl_optimizations_enabled = false;
  original_qdisc = [];
  original_congestion_control = [];
  original_fast_open = [];
}
