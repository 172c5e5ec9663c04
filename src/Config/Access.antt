-- ===== src/Config/Access.antt =====
-- `newEmptyAccess` and `applySecretsToAccess` of pkg/telemt/config.go.
use popu_gate.Prelude.{
  ℤ, pos, ltb_ℤ, Bool, false, not, ◌&&◌, ◌||◌, Str, codes, str_eq, List, [], ◌∷◌, if◌then◌else◌,
}
use popu_gate.Config.Maps.{assign}
use popu_gate.Config.Defs.{AccessConfig, SecretEntry}

-- `newEmptyAccess`
unfoldable pub new_empty_access : AccessConfig
new_empty_access = record {
  replay_check_len = pos 65536;
  replay_window_secs = pos 1800;
  ignore_time_skew = false;
  users = [];
  user_max_tcp_conns = [];
  user_max_unique_ips = [];
  user_data_quota = [];
  user_expirations = [];
  user_rate_limits = [];
  user_enabled = [];
}

abbrev pub is_positive : ℤ → Bool
is_positive z = ltb_ℤ (pos 0) z

-- if b { m[k] = v }
abbrev pub assign_if : {V : Type 0} → Bool → Str → V → List (Str × V) → List (Str × V)
assign_if b k v m = if b then assign k v m else m

abbrev pub rate_limited : SecretEntry → Bool
rate_limited sec = is_positive sec.rate_limit_up_bps || is_positive sec.rate_limit_down_bps

abbrev pub expires : SecretEntry → Bool
expires sec = not (str_eq sec.expires_at []) && not (str_eq sec.expires_at (codes "0"))

-- The body of the loop behind its `continue`.
unfoldable pub apply_limits : SecretEntry → AccessConfig → AccessConfig
apply_limits sec a = record a {
  user_max_tcp_conns =
      assign_if (is_positive sec.max_conns) sec.label sec.max_conns a.user_max_tcp_conns;
  user_max_unique_ips =
      assign_if (is_positive sec.max_ips) sec.label sec.max_ips a.user_max_unique_ips;
  user_data_quota =
      assign_if (is_positive sec.quota_bytes) sec.label sec.quota_bytes a.user_data_quota;
  user_rate_limits =
      assign_if (rate_limited sec) sec.label
        (record { up_bps = sec.rate_limit_up_bps; down_bps = sec.rate_limit_down_bps })
        a.user_rate_limits;
  user_expirations = assign_if (expires sec) sec.label sec.expires_at a.user_expirations;
}

-- The body of the loop.
unfoldable pub apply_secret : SecretEntry → AccessConfig → AccessConfig
unfolding apply_limits
apply_secret sec access =
    let a = record access { users = assign sec.label sec.secret_key access.users } in
    if sec.enabled
    then apply_limits sec a
    else record a { user_enabled = assign sec.label false a.user_enabled }

-- `applySecretsToAccess`
unfoldable pub apply_secrets_to_access : List SecretEntry → AccessConfig → AccessConfig
unfolding apply_secret
apply_secrets_to_access [] access = access
apply_secrets_to_access (sec ∷ secrets) access =
    apply_secrets_to_access secrets (apply_secret sec access)
