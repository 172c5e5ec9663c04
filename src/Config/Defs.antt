-- ===== src/Config/Defs.antt =====
-- The types of pkg/telemt/config.go. The struct tags are not read: the file is written by hand.
use popu_gate.Prelude.{ℤ, Bool, Str, List, Option}
use popu_gate.Model.Upstream.{UpstreamType}

pub record ModesConfig : Type 0 where
  pub classic : Bool
  pub secure : Bool
  pub tls : Bool

pub record LinksConfig : Type 0 where
  pub show : List Str

pub record GeneralConfig : Type 0 where
  pub prefer_ipv6 : Bool
  pub fast_mode : Bool
  pub use_middle_proxy : Bool
  pub log_level : Str
  pub ad_tag : Str
  pub modes : ModesConfig
  pub links : LinksConfig

pub record ServerConfig : Type 0 where
  pub port : ℤ
  pub listen_addr_ipv4 : Str
  pub listen_addr_ipv6 : Str
  pub proxy_protocol : Bool
  pub proxy_protocol_trusted_cidrs : List Str
  pub metrics_listen : Str
  pub metrics_whitelist : List Str
  pub client_mss : ℤ
  pub client_mss_bulk : ℤ
  pub synlimit : Str
  pub synlimit_seconds : ℤ
  pub synlimit_hitcount : ℤ
  pub synlimit_burst : ℤ
  pub api_port : ℤ

pub record TimeoutsConfig : Type 0 where
  pub client_handshake : ℤ
  pub tg_connect : ℤ
  pub client_keepalive : ℤ
  pub client_ack : ℤ

pub record CensorshipConfig : Type 0 where
  pub tls_domain : Str
  pub tls_domains : List Str
  pub unknown_sni_action : Str
  pub mask : Bool
  pub mask_port : ℤ
  pub mask_host : Str
  pub mask_relay_max_bytes : ℤ
  pub fake_cert_len : ℤ
  pub tls_emulation : Bool
  pub tls_front_dir : Str
  pub exclusive_mask : List (Str × Str)

pub record TelegramConfig : Type 0 where
  pub proxy_secret_url : Str
  pub proxy_config_v4_url : Str
  pub proxy_config_v6_url : Str

-- `RateLimit`: bits per second, 0 is unlimited.
pub record RateLimit : Type 0 where
  pub up_bps : ℤ
  pub down_bps : ℤ

pub record AccessConfig : Type 0 where
  pub replay_check_len : ℤ
  pub replay_window_secs : ℤ
  pub ignore_time_skew : Bool
  pub users : List (Str × Str)
  pub user_max_tcp_conns : List (Str × ℤ)
  pub user_max_unique_ips : List (Str × ℤ)
  pub user_data_quota : List (Str × ℤ)
  pub user_expirations : List (Str × Str)
  pub user_rate_limits : List (Str × RateLimit)
  pub user_enabled : List (Str × Bool)

pub record UpstreamConfig : Type 0 where
  pub kind : Str
  pub weight : ℤ
  pub address : Str
  pub username : Str
  pub password : Str
  pub user_id : Str
  pub url : Str
  pub interface : Str
  pub ipv4 : Option Bool
  pub ipv6 : Option Bool
  pub prefer : ℤ
  pub bind_to_device : Str

pub record TelemtConfig : Type 0 where
  pub general : GeneralConfig
  pub server : ServerConfig
  pub timeouts : TimeoutsConfig
  pub censorship : CensorshipConfig
  pub access : AccessConfig
  pub upstreams : List UpstreamConfig
  pub telegram : TelegramConfig

pub record SecretEntry : Type 0 where
  pub label : Str
  pub secret_key : Str
  pub enabled : Bool
  pub max_conns : ℤ
  pub max_ips : ℤ
  pub quota_bytes : ℤ
  pub rate_limit_up_bps : ℤ
  pub rate_limit_down_bps : ℤ
  pub expires_at : Str

pub record UpstreamEntry : Type 0 where
  pub kind : UpstreamType
  pub address : Str
  pub username : Str
  pub password : Str
  pub url : Str
  pub weight : ℤ
  pub iface : Str
  pub enabled : Bool
  pub ipv4 : Option Bool
  pub ipv6 : Option Bool
  pub prefer : ℤ
  pub bind_to_device : Str
