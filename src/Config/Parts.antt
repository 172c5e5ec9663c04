-- ===== src/Config/Parts.antt =====
-- The functions of pkg/telemt/config.go that the builders of a configuration call.
use popu_gate.Prelude.{
  ℤ, pos, Bool, true, false, not, ◌&&◌, ◌||◌, Str, codes, str_eq, List, [], ◌∷◌, ◌++◌,
  if◌then◌else◌, ◌==◌,
}
use popu_gate.Model.Upstream.{UpstreamType, direct, socks5, socks4, shadowsocks, other}
use popu_gate.UpstreamStore.Validate.{trim_space}
use popu_gate.Format.Decimal.{format_int}
use popu_gate.Config.Defs.{
  TimeoutsConfig, TelegramConfig, UpstreamConfig, SecretEntry, UpstreamEntry,
}

abbrev pub is_empty : {A : Type 0} → List A → Bool
is_empty [] = true
is_empty (x ∷ xs) = false

-- string(up.Type)
unfoldable pub type_text : UpstreamType → Str
type_text direct = codes "direct"
type_text socks5 = codes "socks5"
type_text socks4 = codes "socks4"
type_text shadowsocks = codes "shadowsocks"
type_text (other s) = s

abbrev base_upstream : UpstreamEntry → UpstreamConfig
unfolding type_text
base_upstream up = record {
  kind = type_text up.kind;
  weight = up.weight;
  address = [];
  username = [];
  password = [];
  user_id = [];
  url = [];
  interface = up.iface;
  ipv4 = up.ipv4;
  ipv6 = up.ipv6;
  prefer = up.prefer;
  bind_to_device = [];
}

-- The switch on the type of `buildUpstreamConfig`, and the assignment for direct after it.
unfoldable pub with_type : UpstreamType → UpstreamEntry → UpstreamConfig → UpstreamConfig
with_type direct up uc = record uc { bind_to_device = up.bind_to_device }
with_type shadowsocks up uc = record uc { url = up.url }
with_type socks5 up uc = record uc {
  address = up.address;
  username = up.username;
  password = up.password;
}
with_type socks4 up uc = record uc { address = up.address; user_id = up.username }
with_type (other s) up uc = uc

-- `buildUpstreamConfig`
unfoldable pub build_upstream_config : UpstreamEntry → UpstreamConfig
unfolding base_upstream with_type
build_upstream_config up = with_type up.kind up (base_upstream up)

-- `buildUpstreams`
unfoldable pub build_upstreams : List UpstreamEntry → List UpstreamConfig
unfolding build_upstream_config
build_upstreams [] = []
build_upstreams (up ∷ entries) =
    if up.enabled
    then build_upstream_config up ∷ build_upstreams entries
    else build_upstreams entries

-- `buildMetricsWhitelist`
unfoldable pub build_metrics_whitelist : List Str → List Str
build_metrics_whitelist extra = codes "127.0.0.1" ∷ codes "::1" ∷ extra

-- `defaultTimeouts`
unfoldable pub default_timeouts : TimeoutsConfig
default_timeouts = record {
  client_handshake = pos 30;
  tg_connect = pos 10;
  client_keepalive = pos 15;
  client_ack = pos 90;
}

-- `maskingHost`
unfoldable pub masking_host : Bool → Str → Str
masking_host enabled host = if enabled then host else []

-- `telegramHasURLs`
unfoldable pub telegram_has_urls : TelegramConfig → Bool
telegram_has_urls tc =
    not (str_eq tc.proxy_secret_url [])
    || not (str_eq tc.proxy_config_v4_url [])
    || not (str_eq tc.proxy_config_v6_url [])

abbrev pub no_telegram : TelegramConfig
no_telegram = record { proxy_secret_url = []; proxy_config_v4_url = []; proxy_config_v6_url = [] }

-- `telegramConfigFromURLs`
unfoldable pub telegram_config_from_urls : Str → Str → Str → TelegramConfig
telegram_config_from_urls secret_url v4_url v6_url =
    if str_eq secret_url [] && str_eq v4_url [] && str_eq v6_url [] then no_telegram else record {
      proxy_secret_url = secret_url;
      proxy_config_v4_url = v4_url;
      proxy_config_v6_url = v6_url;
    }

-- `getEnabledLabels`
unfoldable pub get_enabled_labels : List SecretEntry → List Str
get_enabled_labels [] = []
get_enabled_labels (s ∷ secrets) =
    if s.enabled then s.label ∷ get_enabled_labels secrets else get_enabled_labels secrets

-- `metricsListenAddr`
unfoldable pub metrics_listen_addr : ℤ → List Str → Str
unfolding format_int
metrics_listen_addr port [] = codes "127.0.0.1:" ++ format_int port
metrics_listen_addr port (x ∷ extra) = codes "0.0.0.0:" ++ format_int port

-- `strings.Split(s, ",")`: the part in front of the first comma, and the parts behind it.
unfoldable pub split_commas : Str → Str × List Str
split_commas [] = ([], [])
split_commas (c ∷ s) =
    let (part, parts) = split_commas s in
    if c == b',' then ([], part ∷ parts) else (c ∷ part, parts)

unfoldable pub trimmed_parts : List Str → List Str
unfolding trim_space
trimmed_parts [] = []
trimmed_parts (p ∷ parts) =
    if str_eq (trim_space p) [] then trimmed_parts parts else trim_space p ∷ trimmed_parts parts

-- `parseCIDRList`
unfoldable pub parse_cidr_list : Str → List Str
unfolding split_commas trimmed_parts
parse_cidr_list s = let (part, parts) = split_commas s in trimmed_parts (part ∷ parts)
