-- ===== src/Settings/Validate.antt =====
-- internal/model/settings.go: `Validate` and its helpers.
use popu_gate.Prelude.{
  ℤ, pos, ltb_ℤ, ◌||◌, Str, String, codes, str_eq, List, [], ◌∷◌, if◌then◌else◌,
}
use popu_gate.Settings.Defs.{Settings}

unfoldable pub valid_port : ℤ → ℤ → ℤ
valid_port port fallback = if ltb_ℤ port (pos 1) || ltb_ℤ (pos 65535) port then fallback else port

unfoldable pub valid_enum : Str → List String → Str → Str
valid_enum v [] fallback = fallback
valid_enum v (a ∷ allowed) fallback =
    if str_eq v (codes a) then v else valid_enum v allowed fallback

-- `if v < low { v = fallback }`
unfoldable pub at_least : ℤ → ℤ → ℤ → ℤ
at_least low v fallback = if ltb_ℤ v low then fallback else v

-- The settings behind `Validate`.
unfoldable pub validate : Settings → Settings
unfolding valid_port valid_enum at_least
validate s = record s {
  proxy_port = valid_port s.proxy_port (pos 443);
  proxy_metrics_port = valid_port s.proxy_metrics_port (pos 9090);
  proxy_concurrency = at_least (pos 1) s.proxy_concurrency (pos 8192);
  fake_cert_len = at_least (pos 512) s.fake_cert_len (pos 2048);
  masking_port = valid_port s.masking_port (pos 443);
  unknown_sni_action = valid_enum s.unknown_sni_action ("drop" ∷ "mask" ∷ []) (codes "mask");
  geoblock_mode = valid_enum s.geoblock_mode ("whitelist" ∷ "blacklist" ∷ []) (codes "blacklist");
  telegram_interval = at_least (pos 1) s.telegram_interval (pos 6);
  replication_role =
      valid_enum s.replication_role ("standalone" ∷ "master" ∷ "slave" ∷ []) (codes "standalone");
  replication_sync_interval = at_least (pos 10) s.replication_sync_interval (pos 60);
  replication_ssh_port = valid_port s.replication_ssh_port (pos 22);
  backup_retention_days = at_least (pos 1) s.backup_retention_days (pos 7);
  secret_auto_rotate_days = at_least (pos 0) s.secret_auto_rotate_days (pos 0);
  synlimit_backend =
      valid_enum s.synlimit_backend ("nftables" ∷ "iptables" ∷ []) (codes "nftables");
  synlimit_seconds = at_least (pos 1) s.synlimit_seconds (pos 60);
  synlimit_hitcount = at_least (pos 1) s.synlimit_hitcount (pos 48);
  synlimit_burst = at_least (pos 1) s.synlimit_burst (pos 1);
}
