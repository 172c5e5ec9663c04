-- ===== src/Settings/Range.antt =====
-- The ranges of settings, and `Validate` of internal/model/settings.go.
use popu_gate.Prelude.{
  ℤ, pos, ◌≤ℤ◌, ◌≡◌, refl, Bool, true, false, Str, String, codes, str_eq, List, [], ◌∷◌, ◌||◌,
  if◌then◌else◌, arith, Bool-cases, inl, inr,
}
use popu_gate.Settings.Defs.{Settings}
use popu_gate.Settings.Validate.{valid_port, valid_enum, at_least, validate}

-- A TCP port.
abbrev pub IsPort : ℤ → Type 0
IsPort p = (pos 1 ≤ℤ p) × (p ≤ℤ pos 65535)

abbrev pub one_of_texts : Str → List String → Bool
one_of_texts v [] = false
one_of_texts v (a ∷ allowed) = str_eq v (codes a) || one_of_texts v allowed

pub record InRange (s : Settings) : Type 0 where
  pub proxy_port : IsPort s.proxy_port
  pub proxy_metrics_port : IsPort s.proxy_metrics_port
  pub masking_port : IsPort s.masking_port
  pub replication_ssh_port : IsPort s.replication_ssh_port
  pub proxy_concurrency : pos 1 ≤ℤ s.proxy_concurrency
  pub fake_cert_len : pos 512 ≤ℤ s.fake_cert_len
  pub telegram_interval : pos 1 ≤ℤ s.telegram_interval
  pub replication_sync_interval : pos 10 ≤ℤ s.replication_sync_interval
  pub backup_retention_days : pos 1 ≤ℤ s.backup_retention_days
  pub secret_auto_rotate_days : pos 0 ≤ℤ s.secret_auto_rotate_days
  pub synlimit_seconds : pos 1 ≤ℤ s.synlimit_seconds
  pub synlimit_hitcount : pos 1 ≤ℤ s.synlimit_hitcount
  pub synlimit_burst : pos 1 ≤ℤ s.synlimit_burst
  pub unknown_sni_action : one_of_texts s.unknown_sni_action ("drop" ∷ "mask" ∷ []) ≡ true
  pub geoblock_mode : one_of_texts s.geoblock_mode ("whitelist" ∷ "blacklist" ∷ []) ≡ true
  pub replication_role :
      one_of_texts s.replication_role ("standalone" ∷ "master" ∷ "slave" ∷ []) ≡ true
  pub synlimit_backend : one_of_texts s.synlimit_backend ("nftables" ∷ "iptables" ∷ []) ≡ true

valid_port-IsPort : (p d : ℤ) → IsPort d → IsPort (valid_port p d)
unfolding valid_port
valid_port-IsPort p d h = ground arith

at_least-le : (low v d : ℤ) → low ≤ℤ d → low ≤ℤ at_least low v d
unfolding at_least
at_least-le low v d h = ground arith

valid_enum-if :
    (v : Str) (allowed : List String) (d : Str)
    → valid_enum v allowed d ≡ (if one_of_texts v allowed then v else d)
unfolding valid_enum
valid_enum-if v [] d = refl
valid_enum-if v (a ∷ allowed) d = ground (arith, valid_enum-if v allowed d)

valid_enum-allowed :
    (v : Str) (allowed : List String) (d : Str)
    → one_of_texts d allowed ≡ true
    → one_of_texts (valid_enum v allowed d) allowed ≡ true
valid_enum-allowed v allowed d h =
    rw valid_enum-if
      (elim (Bool-cases (one_of_texts v allowed)) [ inl e ↦ rw e e | inr e ↦ rw e h ])

valid_port_same : (p d : ℤ) → IsPort p → valid_port p d ≡ p
unfolding valid_port
valid_port_same p d h = ground arith

at_least_same : (low v d : ℤ) → low ≤ℤ v → at_least low v d ≡ v
unfolding at_least
at_least_same low v d h = ground arith

valid_enum_same :
    (v : Str) (allowed : List String) (d : Str)
    → one_of_texts v allowed ≡ true
    → valid_enum v allowed d ≡ v
valid_enum_same v allowed d h = rw (valid_enum-if, h)

-- Whatever the fields hold, behind `Validate` every port is a TCP port, every count has at least
-- its lower bound, and every mode is one of its allowed words.
pub validate-InRange : (s : Settings) → InRange (validate s)
unfolding validate str_eq
validate-InRange s = record {
  proxy_port = valid_port-IsPort s.proxy_port (pos 443) (omega arith);
  proxy_metrics_port = valid_port-IsPort s.proxy_metrics_port (pos 9090) (omega arith);
  masking_port = valid_port-IsPort s.masking_port (pos 443) (omega arith);
  replication_ssh_port = valid_port-IsPort s.replication_ssh_port (pos 22) (omega arith);
  proxy_concurrency = at_least-le (pos 1) s.proxy_concurrency (pos 8192) (omega arith);
  fake_cert_len = at_least-le (pos 512) s.fake_cert_len (pos 2048) (omega arith);
  telegram_interval = at_least-le (pos 1) s.telegram_interval (pos 6) (omega arith);
  replication_sync_interval =
      at_least-le (pos 10) s.replication_sync_interval (pos 60) (omega arith);
  backup_retention_days = at_least-le (pos 1) s.backup_retention_days (pos 7) (omega arith);
  secret_auto_rotate_days = at_least-le (pos 0) s.secret_auto_rotate_days (pos 0) (omega arith);
  synlimit_seconds = at_least-le (pos 1) s.synlimit_seconds (pos 60) (omega arith);
  synlimit_hitcount = at_least-le (pos 1) s.synlimit_hitcount (pos 48) (omega arith);
  synlimit_burst = at_least-le (pos 1) s.synlimit_burst (pos 1) (omega arith);
  unknown_sni_action =
      valid_enum-allowed s.unknown_sni_action ("drop" ∷ "mask" ∷ []) (codes "mask") refl;
  geoblock_mode =
      valid_enum-allowed s.geoblock_mode ("whitelist" ∷ "blacklist" ∷ []) (codes "blacklist") refl;
  replication_role =
      valid_enum-allowed s.replication_role ("standalone" ∷ "master" ∷ "slave" ∷ [])
        (codes "standalone") refl;
  synlimit_backend =
      valid_enum-allowed s.synlimit_backend ("nftables" ∷ "iptables" ∷ []) (codes "nftables") refl;
}

-- Settings in range come back as they are.
pub validate_same : (s : Settings) → InRange s → validate s ≡ s
unfolding validate
validate_same s h = rw (
  valid_port_same s.proxy_port (pos 443) h.proxy_port,
  valid_port_same s.proxy_metrics_port (pos 9090) h.proxy_metrics_port,
  valid_port_same s.masking_port (pos 443) h.masking_port,
  valid_port_same s.replication_ssh_port (pos 22) h.replication_ssh_port,
  at_least_same (pos 1) s.proxy_concurrency (pos 8192) h.proxy_concurrency,
  at_least_same (pos 512) s.fake_cert_len (pos 2048) h.fake_cert_len,
  at_least_same (pos 1) s.telegram_interval (pos 6) h.telegram_interval,
  at_least_same (pos 10) s.replication_sync_interval (pos 60) h.replication_sync_interval,
  at_least_same (pos 1) s.backup_retention_days (pos 7) h.backup_retention_days,
  at_least_same (pos 0) s.secret_auto_rotate_days (pos 0) h.secret_auto_rotate_days,
  at_least_same (pos 1) s.synlimit_seconds (pos 60) h.synlimit_seconds,
  at_least_same (pos 1) s.synlimit_hitcount (pos 48) h.synlimit_hitcount,
  at_least_same (pos 1) s.synlimit_burst (pos 1) h.synlimit_burst,
  valid_enum_same s.unknown_sni_action ("drop" ∷ "mask" ∷ []) (codes "mask") h.unknown_sni_action,
  valid_enum_same s.geoblock_mode ("whitelist" ∷ "blacklist" ∷ []) (codes "blacklist")
      h.geoblock_mode,
  valid_enum_same s.replication_role ("standalone" ∷ "master" ∷ "slave" ∷ []) (codes "standalone")
      h.replication_role,
  valid_enum_same s.synlimit_backend ("nftables" ∷ "iptables" ∷ []) (codes "nftables")
      h.synlimit_backend,
)
