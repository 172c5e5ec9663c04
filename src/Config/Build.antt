-- ===== src/Config/Build.antt =====
-- `BuildConfig` and `BuildInstanceConfig` of pkg/telemt/config.go.
use popu_gate.Prelude.{
  ℤ, pos, Bool, true, false, not, ◌&&◌, Str, codes, str_eq, List, [], if◌then◌else◌,
}
use popu_gate.Model.Instance.{Instance, Json, get_mask_host, get_exclusive_mask, get_tls_domains}
use popu_gate.Settings.{Settings}
use popu_gate.Config.Defs.{
  TelemtConfig, ModesConfig, CensorshipConfig, TelegramConfig, SecretEntry, UpstreamEntry,
}
use popu_gate.Config.Access.{new_empty_access, apply_secrets_to_access, is_positive}
use popu_gate.Config.Parts.{
  no_telegram, build_metrics_whitelist, get_enabled_labels, metrics_listen_addr, default_timeouts,
  masking_host, telegram_config_from_urls, telegram_has_urls, parse_cidr_list, build_upstreams,
}

-- `ConfigParams`
pub record ConfigParams : Type 0 where
  pub settings : Settings
  pub secrets : List SecretEntry
  pub upstreams : List UpstreamEntry
  pub extra_metrics_whitelist : List Str

-- `BuildConfig`
unfoldable pub build_config : ConfigParams → TelemtConfig
unfolding build_metrics_whitelist get_enabled_labels metrics_listen_addr default_timeouts
    masking_host telegram_config_from_urls parse_cidr_list build_upstreams apply_secrets_to_access
    new_empty_access
build_config params =
    let s = params.settings in
    record {
      general = record {
        prefer_ipv6 = false;
        fast_mode = true;
        use_middle_proxy = s.use_middle_proxy;
        log_level = codes "normal";
        ad_tag = s.ad_tag;
        modes = record { classic = false; secure = not s.masking_enabled; tls = true };
        links = record { show = get_enabled_labels params.secrets };
      };
      server = record {
        port = s.proxy_port;
        listen_addr_ipv4 = codes "0.0.0.0";
        listen_addr_ipv6 = codes "::";
        proxy_protocol = s.proxy_protocol;
        proxy_protocol_trusted_cidrs =
            if s.proxy_protocol && not (str_eq s.proxy_protocol_trusted_cidrs [])
            then parse_cidr_list s.proxy_protocol_trusted_cidrs
            else [];
        metrics_listen = metrics_listen_addr s.proxy_metrics_port params.extra_metrics_whitelist;
        metrics_whitelist = build_metrics_whitelist params.extra_metrics_whitelist;
        client_mss = pos 0;
        client_mss_bulk = pos 0;
        synlimit = [];
        synlimit_seconds = pos 0;
        synlimit_hitcount = pos 0;
        synlimit_burst = pos 0;
        api_port = pos 0;
      };
      timeouts = default_timeouts;
      censorship = record {
        tls_domain = s.proxy_domain;
        tls_domains = [];
        unknown_sni_action = s.unknown_sni_action;
        mask = s.masking_enabled;
        mask_port = s.masking_port;
        mask_host = masking_host s.masking_enabled s.masking_host;
        mask_relay_max_bytes = s.masking_relay_max_bytes;
        fake_cert_len = s.fake_cert_len;
        tls_emulation = false;
        tls_front_dir = [];
        exclusive_mask = [];
      };
      access = apply_secrets_to_access params.secrets new_empty_access;
      upstreams = build_upstreams params.upstreams;
      telegram =
          telegram_config_from_urls s.proxy_secret_url s.proxy_config_v4_url s.proxy_config_v6_url;
    }

-- `instanceModes`
unfoldable pub instance_modes : Bool → ModesConfig
instance_modes fake_tls = record { classic = not fake_tls; secure = false; tls = fake_tls }

abbrev pub no_censorship : CensorshipConfig
no_censorship = record {
  tls_domain = [];
  tls_domains = [];
  unknown_sni_action = [];
  mask = false;
  mask_port = pos 0;
  mask_host = [];
  mask_relay_max_bytes = pos 0;
  fake_cert_len = pos 0;
  tls_emulation = false;
  tls_front_dir = [];
  exclusive_mask = [];
}

-- `InstanceConfigParams`
pub record InstanceConfigParams : Type 0 where
  pub inst : Instance
  pub fake_cert_len : ℤ
  pub use_middle_proxy : Bool
  pub ad_tag : Str
  pub proxy_protocol : Bool
  pub proxy_protocol_cidrs : List Str
  pub telegram : TelegramConfig
  pub secrets : List SecretEntry
  pub upstreams : List UpstreamEntry
  pub extra_metrics_whitelist : List Str
  pub synlimit_backend : Str
  pub synlimit_seconds : ℤ
  pub synlimit_hitcount : ℤ
  pub synlimit_burst : ℤ

abbrev pub only_if : Bool → ℤ → ℤ
only_if b z = if b then z else pos 0

module _ (json : Json) where
  -- `instanceCensorship`
  unfoldable pub instance_censorship : Instance → ℤ → CensorshipConfig
  unfolding get_mask_host get_exclusive_mask get_tls_domains
  instance_censorship i fake_cert_len =
      if i.fake_tls
      then record {
        tls_domain = i.tls_domain;
        tls_domains = get_tls_domains json i;
        unknown_sni_action =
            if str_eq i.unknown_sni_action [] then codes "mask" else i.unknown_sni_action;
        mask = true;
        mask_port = i.mask_port;
        mask_host = get_mask_host i;
        mask_relay_max_bytes = pos 0;
        fake_cert_len = fake_cert_len;
        tls_emulation = true;
        tls_front_dir = if i.tls_fronting then codes "/tlsfront" else [];
        exclusive_mask = get_exclusive_mask json i;
      }
      else no_censorship

  -- `BuildInstanceConfig`
  unfoldable pub build_instance_config : InstanceConfigParams → TelemtConfig
  unfolding build_metrics_whitelist get_enabled_labels metrics_listen_addr default_timeouts
      instance_modes telegram_has_urls build_upstreams apply_secrets_to_access new_empty_access
      instance_censorship
  build_instance_config params =
      let i = params.inst in
      let shaped = i.tcp_mss_enabled && is_positive i.tcp_mss in
      let limited = not (str_eq params.synlimit_backend []) in
      record {
        general = record {
          prefer_ipv6 = false;
          fast_mode = true;
          use_middle_proxy = params.use_middle_proxy;
          log_level = codes "normal";
          ad_tag = params.ad_tag;
          modes = instance_modes i.fake_tls;
          links = record { show = get_enabled_labels params.secrets };
        };
        server = record {
          port = i.port;
          listen_addr_ipv4 = codes "0.0.0.0";
          listen_addr_ipv6 = codes "::";
          proxy_protocol = params.proxy_protocol;
          proxy_protocol_trusted_cidrs =
              if params.proxy_protocol then params.proxy_protocol_cidrs else [];
          metrics_listen = metrics_listen_addr i.metrics_port params.extra_metrics_whitelist;
          metrics_whitelist = build_metrics_whitelist params.extra_metrics_whitelist;
          client_mss = only_if shaped i.tcp_mss;
          client_mss_bulk = only_if shaped i.tcp_mss_bulk;
          synlimit = params.synlimit_backend;
          synlimit_seconds = only_if limited params.synlimit_seconds;
          synlimit_hitcount = only_if limited params.synlimit_hitcount;
          synlimit_burst = only_if limited params.synlimit_burst;
          api_port = i.api_port;
        };
        timeouts = default_timeouts;
        censorship = instance_censorship i params.fake_cert_len;
        access = apply_secrets_to_access params.secrets new_empty_access;
        upstreams = build_upstreams params.upstreams;
        telegram = if telegram_has_urls params.telegram then params.telegram else no_telegram;
      }
