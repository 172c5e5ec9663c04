-- ===== src/Containers/Config.antt =====
-- The configuration of an instance, from the tables: `listUpstreamEntries` to
-- `generateInstanceConfigWithCached`, and `ReloadInstanceConfig`.
use popu_gate.Prelude.{
  ℕ, Bool, ◌&&◌, ◌||◌, Str, codes, str_eq, List, [], ◌∷◌, map, Option, none, some, if◌then◌else◌,
}
use popu_gate.Model.Secret.{Secret}
use popu_gate.Model.Upstream.{Upstream}
use popu_gate.Model.Instance.{Instance, Json, get_tags, tags_match}
use popu_gate.Sys.{M, pure, raise, guard, ◌>>=◌, ◌>>◌, not_found, instance_disabled, not_written}
use popu_gate.Settings as SettingsStore
use popu_gate.Settings.{Settings}
use popu_gate.SecretStore as SecretStore
use popu_gate.UpstreamStore.Defs as UpstreamStore
use popu_gate.InstanceStore.Defs as InstanceStore
use popu_gate.Config.Defs.{TelemtConfig, SecretEntry, UpstreamEntry}
use popu_gate.Config.Parts.{telegram_config_from_urls, parse_cidr_list}
use popu_gate.Config.Build.{build_instance_config}
use popu_gate.Containers.Names.{container_name}
use popu_gate.Containers.Swing.{active_container_name}

unfoldable pub upstream_entry : Upstream → UpstreamEntry
upstream_entry u = record {
  kind = u.kind;
  address = u.address;
  username = u.username;
  password = u.password;
  url = u.url;
  weight = u.weight;
  iface = u.iface;
  enabled = u.enabled;
  ipv4 = u.ipv4;
  ipv6 = u.ipv6;
  prefer = u.prefer;
  bind_to_device = u.bind_to_device;
}

-- `listUpstreamEntries`
unfoldable pub list_upstream_entries : M (List UpstreamEntry)
unfolding upstream_entry
list_upstream_entries = do db_upstreams ← UpstreamStore.list; pure (map upstream_entry db_upstreams)

unfoldable pub secret_entry : Secret → SecretEntry
secret_entry sec = record {
  label = sec.label;
  secret_key = sec.secret_key;
  enabled = sec.enabled;
  max_conns = sec.max_conns;
  max_ips = sec.max_ips;
  quota_bytes = sec.quota_bytes;
  rate_limit_up_bps = sec.rate_limit_up_bps;
  rate_limit_down_bps = sec.rate_limit_down_bps;
  expires_at = sec.expires_at;
}

-- `parseCIDRListSafe`
unfoldable pub parse_cidr_list_safe : Str → List Str
unfolding parse_cidr_list
parse_cidr_list_safe [] = []
parse_cidr_list_safe (c ∷ s) = parse_cidr_list (c ∷ s)

-- `synlimitCaps`
unfoldable pub synlimit_caps : Settings → List Str
synlimit_caps settings = if settings.synlimit_enabled then codes "NET_ADMIN" ∷ [] else []

-- What Docker and the disk answer to a reload: `ListRunningContainerNames` (none is its error),
-- `IsInstanceRunning`, whose error counts as no, and whether `WriteConfigTOML` ends without one: it
-- renames a complete file, so that on an error the old configuration stays.
pub record Engine : Type 0 where
  pub list_running : Option (Str → Bool)
  pub is_running : Str → Bool
  pub saves : TelemtConfig → Bool

abbrev pub name_in : Instance → Option (Str → Bool) → Str
name_in i none = container_name i
name_in i (some running) = active_container_name running i

-- `GetActiveContainerName`
unfoldable pub get_active_container_name : Engine → Instance → Str
unfolding active_container_name
get_active_container_name engine i = name_in i engine.list_running

-- The end of a reload: the signal to a container, whose error is that of the reload, or the error
-- that the container is not running.
pub data Signal : Type 0 where
  sent : Str → Signal
  not_running : Signal

-- What a reload leaves behind the writing of the configuration.
pub record Reloaded : Type 0 where
  pub written : TelemtConfig
  pub signal : Signal

module _ (json : Json) where
  -- `GetTags` of internal/model/secret.go
  unfoldable pub secret_tags : Secret → List Str
  secret_tags sec =
      if str_eq sec.tags [] || str_eq sec.tags (codes "[]") then [] else json.strings sec.tags

  -- The loop over the secrets: those whose tags match, disabled ones too.
  unfoldable pub secret_entries : List Str → List Secret → List SecretEntry
  unfolding secret_tags secret_entry
  secret_entries instance_tags [] = []
  secret_entries instance_tags (sec ∷ secrets) =
      if tags_match instance_tags (secret_tags sec)
      then secret_entry sec ∷ secret_entries instance_tags secrets
      else secret_entries instance_tags secrets

  -- The configuration that `generateInstanceConfigWithCached` writes; `extra` is what
  -- `dockerExtraMetricsIPs` finds.
  unfoldable pub generate_with_cached :
      List Str → Settings → Instance → List UpstreamEntry → List Secret → TelemtConfig
  unfolding secret_entries parse_cidr_list_safe telegram_config_from_urls build_instance_config
      get_tags
  generate_with_cached extra settings i upstream_entries db_secrets =
      build_instance_config json (record {
        inst = i;
        fake_cert_len = settings.fake_cert_len;
        use_middle_proxy = settings.use_middle_proxy;
        ad_tag = settings.ad_tag;
        proxy_protocol = settings.proxy_protocol;
        proxy_protocol_cidrs = parse_cidr_list_safe settings.proxy_protocol_trusted_cidrs;
        telegram =
            telegram_config_from_urls settings.proxy_secret_url settings.proxy_config_v4_url
              settings.proxy_config_v6_url;
        secrets = secret_entries (get_tags json i) db_secrets;
        upstreams = upstream_entries;
        extra_metrics_whitelist = extra;
        synlimit_backend = if settings.synlimit_enabled then settings.synlimit_backend else [];
        synlimit_seconds = settings.synlimit_seconds;
        synlimit_hitcount = settings.synlimit_hitcount;
        synlimit_burst = settings.synlimit_burst;
      })

  -- `generateInstanceConfig` and `generateInstanceConfigWith`
  unfoldable pub generate_instance_config : List Str → Settings → Instance → M TelemtConfig
  unfolding list_upstream_entries generate_with_cached
  generate_instance_config extra settings i = do
    upstream_entries ← list_upstream_entries
    db_secrets ← SecretStore.list
    pure (generate_with_cached extra settings i upstream_entries db_secrets)

  abbrev pub found : Option Instance → M Instance
  found none = raise (not_found [])
  found (some i) = pure i

  -- `ReloadInstanceConfig`: an error in front of the writing is one of the monad, behind it the
  -- configuration has been written.
  unfoldable pub reload_instance_config : List Str → Engine → ℕ → M Reloaded
  unfolding generate_instance_config get_active_container_name
  reload_instance_config extra engine n = do
    settings ← SettingsStore.load
    row ← InstanceStore.get_by_id n
    i ← found row
    guard i.enabled instance_disabled
    cfg ← generate_instance_config extra settings i
    guard (engine.saves cfg) not_written
    let name = get_active_container_name engine i
    pure (record {
      written = cfg;
      signal = if engine.is_running name then sent name else not_running;
    })

  -- The inner loop of `buildSecretCounts`, and that of `matchingSecretCount`.
  unfoldable pub matching_count : List Str → List Secret → ℕ
  unfolding secret_tags
  matching_count instance_tags [] = 0
  matching_count instance_tags (sec ∷ secrets) =
      if sec.enabled && tags_match instance_tags (secret_tags sec)
      then ℕ.suc (matching_count instance_tags secrets)
      else matching_count instance_tags secrets

  -- `matchingSecretCount`
  unfoldable pub matching_secret_count : List Str → M ℕ
  unfolding matching_count
  matching_secret_count instance_tags = do
    db_secrets ← SecretStore.list
    pure (matching_count instance_tags db_secrets)
