-- ===== src/Examples/Engine.antt =====
-- The configuration of the engine at concrete inputs.
use popu_gate.Prelude.{
  ◌≡◌, refl, pos, true, false, codes, str_eq, Str, List, [], ◌∷◌, ◌++◌, none, some,
}
use popu_gate.Model.Upstream.{direct}
use popu_gate.Settings.{default_settings}
use popu_gate.UpstreamNames.Text.{has_byte}
use popu_gate.Config.Lines.{format_string_array}
use popu_gate.Config.Arrays.{read_array, read_array-format_string_array}
use popu_gate.Config.Defs.{TelemtConfig, SecretEntry, UpstreamEntry}
use popu_gate.Config.Access.{apply_secrets_to_access, new_empty_access}
use popu_gate.Config.Policy.{secret_of, policy, view, view-apply_secrets_to_access}
use popu_gate.Config.Build.{build_config}
use popu_gate.Config.Render.{render_toml}
use popu_gate.Config.Headers.Rules.{headers}
use popu_gate.Config.Headers.Text.{config_headers, headers-render_toml}

abbrev ann : SecretEntry
ann = record {
  label = codes "ann";
  secret_key = codes "00112233445566778899aabbccddeeff";
  enabled = true;
  max_conns = pos 5;
  max_ips = pos 0;
  quota_bytes = pos 1000;
  rate_limit_up_bps = pos 0;
  rate_limit_down_bps = pos 64;
  expires_at = codes "0";
}

abbrev bob : SecretEntry
bob = record ann { label = codes "bob"; enabled = false }

abbrev two_entries : List SecretEntry
two_entries = ann ∷ bob ∷ []

-- A password that tries to open a table.
abbrev tunnel : UpstreamEntry
tunnel = record {
  kind = direct;
  address = [];
  username = [];
  password = [];
  url = [];
  weight = pos 10;
  iface = codes "eth0\n[access.users]\neve = \"1\"";
  enabled = true;
  ipv4 = some true;
  ipv6 = none;
  prefer = pos 4;
  bind_to_device = codes "eth0";
}

abbrev engine_config : TelemtConfig
engine_config = build_config (record {
  settings = default_settings;
  secrets = two_entries;
  upstreams = tunnel ∷ [];
  extra_metrics_whitelist = [];
})

view-apply_secrets_to_access_example :
    view (codes "bob") (apply_secrets_to_access two_entries new_empty_access)
    ≡ policy (secret_of (codes "bob") two_entries)
unfolding str_eq
view-apply_secrets_to_access_example =
    view-apply_secrets_to_access (codes "bob") two_entries ((refl, tt), (tt, tt))

headers-render_toml_example :
    headers (render_toml (λ _. true) (codes "2026-01-01 00:00:00 UTC") engine_config)
    ≡ config_headers engine_config
unfolding has_byte
headers-render_toml_example =
    headers-render_toml (λ _. true) (codes "2026-01-01 00:00:00 UTC") engine_config refl

-- The second text would end the string and the array.
abbrev two_texts : List Str
two_texts = codes "1\n" ∷ codes "\"]" ∷ []

read_array-format_string_array_example :
    read_array (format_string_array (λ _. true) two_texts ++ codes "\n")
    ≡ some (two_texts, codes "\n")
read_array-format_string_array_example =
    read_array-format_string_array (λ _. true) two_texts (codes "\n")
      ((refl, (refl, tt)), ((refl, (refl, tt)), tt))
