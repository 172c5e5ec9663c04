-- ===== src/Config/Render.antt =====
-- `renderTOML` of pkg/telemt/config.go, and its sections from [censorship] on.
use popu_gate.Prelude.{
  ℕ, ℤ, pos, negsuc, Bool, false, not, ◌&&◌, ◌||◌, Str, codes, List, [], ◌∷◌, ◌++◌, Option, none,
  some, if◌then◌else◌, ◌==◌,
}
use popu_gate.Format.Decimal.{format_int, format_bool}
use popu_gate.Format.Quote.{quote}
use popu_gate.Config.Access.{is_positive}
use popu_gate.Config.Parts.{is_empty}
use popu_gate.Config.Defs.{TelemtConfig, CensorshipConfig, UpstreamConfig, RateLimit}
use popu_gate.Config.Lines.{
  entry, optional, given, each, sorted_keys, value_at, label_lines, access_table, text_entry,
  format_string_array, unlines,
}
use popu_gate.Config.Server.{
  render_general_section, render_modes_section, render_links_section, render_server_section,
  render_timeouts_section,
}

-- up.Prefer == 4 || up.Prefer == 6
abbrev pub is_family : ℤ → Bool
is_family (pos n) = n == 4 || n == 6
is_family (negsuc n) = false

-- `renderAccessSection`: the table of one rate limit.
unfoldable pub rate_limit_lines : List (Str × RateLimit) → Str → List Str
rate_limit_lines m label =
    let rl = value_at (record { up_bps = pos 0; down_bps = pos 0 }) label m in
    (codes "[access.user_rate_limits." ++ (label ++ codes "]"))
    ∷ entry (codes "up_bps") (format_int rl.up_bps)
    ∷ entry (codes "down_bps") (format_int rl.down_bps)
    ∷ []
    ∷ []

-- if p != nil
abbrev pub pointed : Str → Option Bool → List Str
pointed key none = []
pointed key (some b) = entry key (format_bool b) ∷ []

module _ (is_print : ℕ → Bool) where
  -- The table of `renderCensorshipSection`.
  unfoldable pub exclusive_mask_lines : List (Str × Str) → List Str
  exclusive_mask_lines [] = []
  exclusive_mask_lines (p ∷ m) =
      codes "[censorship.exclusive_mask]"
      ∷ (each (λ sni. text_entry is_print (quote is_print sni) (value_at [] sni (p ∷ m)) ∷ [])
            (sorted_keys (p ∷ m))
          ++ [] ∷ [])

  unfoldable pub censorship_lines : CensorshipConfig → List Str
  unfolding format_string_array exclusive_mask_lines
  censorship_lines c =
      codes "[censorship]"
      ∷ text_entry is_print (codes "tls_domain") c.tls_domain
      ∷ (optional (not (is_empty c.tls_domains))
            (entry (codes "tls_domains") (format_string_array is_print c.tls_domains))
          ++ text_entry is_print (codes "unknown_sni_action") c.unknown_sni_action
            ∷ entry (codes "mask") (format_bool c.mask)
            ∷ entry (codes "mask_port") (format_int c.mask_port)
            ∷ (optional (c.mask && given c.mask_host)
                  (text_entry is_print (codes "mask_host") c.mask_host)
                ++ entry (codes "fake_cert_len") (format_int c.fake_cert_len)
                  ∷ (optional (is_positive c.mask_relay_max_bytes)
                        (entry (codes "mask_relay_max_bytes") (format_int c.mask_relay_max_bytes))
                      ++ (optional c.tls_emulation (codes "tls_emulation = true")
                          ++ (optional (given c.tls_front_dir)
                                (text_entry is_print (codes "tls_front_dir") c.tls_front_dir)
                              ++ codes
                                  "# Note: geo-blocking is enforced at the host firewall level (iptables/nftables),"
                                ∷ codes "# not via telemt config."
                                ∷ []
                                ∷ exclusive_mask_lines c.exclusive_mask)))))

  -- `renderCensorshipSection`
  unfoldable pub render_censorship_section : TelemtConfig → List Str
  unfolding censorship_lines
  render_censorship_section cfg =
      if given cfg.censorship.tls_domain then censorship_lines cfg.censorship else []

  -- `renderAccessSection`
  unfoldable pub render_access_section : TelemtConfig → List Str
  unfolding rate_limit_lines label_lines sorted_keys
  render_access_section cfg =
      let a = cfg.access in
      codes "[access]"
      ∷ entry (codes "replay_check_len") (format_int a.replay_check_len)
      ∷ entry (codes "replay_window_secs") (format_int a.replay_window_secs)
      ∷ entry (codes "ignore_time_skew") (format_bool a.ignore_time_skew)
      ∷ []
      ∷ codes "[access.users]"
      ∷ (label_lines (λ l. text_entry is_print l (value_at [] l a.users) ∷ []) (sorted_keys a.users)
          ++ []
            ∷ (access_table (codes "[access.user_max_tcp_conns]") format_int (pos 0)
                  a.user_max_tcp_conns
                ++ (access_table (codes "[access.user_max_unique_ips]") format_int (pos 0)
                      a.user_max_unique_ips
                    ++ (access_table (codes "[access.user_data_quota]") format_int (pos 0)
                          a.user_data_quota
                        ++ (access_table (codes "[access.user_expirations]") (quote is_print) []
                              a.user_expirations
                            ++ (label_lines (rate_limit_lines a.user_rate_limits)
                                  (sorted_keys a.user_rate_limits)
                                ++ access_table (codes "[access.user_enabled]") format_bool false
                                    a.user_enabled))))))

  abbrev pub given_entry : Str → Str → List Str
  given_entry key value = optional (given value) (text_entry is_print key value)

  -- The round of `renderUpstreamsSection`.
  unfoldable pub upstream_lines : UpstreamConfig → List Str
  upstream_lines up =
      codes "[[upstreams]]"
      ∷ text_entry is_print (codes "type") up.kind
      ∷ entry (codes "weight") (format_int up.weight)
      ∷ (given_entry (codes "url") up.url
          ++ (given_entry (codes "address") up.address
              ++ (given_entry (codes "username") up.username
                  ++ (given_entry (codes "password") up.password
                      ++ (given_entry (codes "user_id") up.user_id
                          ++ (given_entry (codes "interface") up.interface
                              ++ (pointed (codes "ipv4") up.ipv4
                                  ++ (pointed (codes "ipv6") up.ipv6
                                      ++ (optional (is_family up.prefer)
                                            (entry (codes "prefer") (format_int up.prefer))
                                          ++ (given_entry (codes "bindtodevice") up.bind_to_device
                                              ++ [] ∷ []))))))))))

  -- `renderUpstreamsSection`
  unfoldable pub render_upstreams_section : TelemtConfig → List Str
  unfolding each upstream_lines
  render_upstreams_section cfg = each upstream_lines cfg.upstreams

  -- The lines of `renderTOML`, where `stamp` is the formatted time.
  unfoldable pub config_lines : Str → TelemtConfig → List Str
  unfolding render_general_section render_modes_section render_links_section render_server_section
      render_timeouts_section render_censorship_section render_access_section
      render_upstreams_section
  config_lines stamp cfg =
      (codes "# PopuGate " ++ 0xE2 ∷ 0x80 ∷ 0x94 ∷ codes " telemt configuration")
      ∷ (codes "# Generated: " ++ stamp)
      ∷ []
      ∷ (render_general_section is_print cfg
          ++ (render_modes_section cfg
              ++ (render_links_section is_print cfg
                  ++ (render_server_section is_print cfg
                      ++ (render_timeouts_section cfg
                          ++ (render_censorship_section cfg
                              ++ (render_access_section cfg ++ render_upstreams_section cfg)))))))

  -- `renderTOML`
  unfoldable pub render_toml : Str → TelemtConfig → Str
  unfolding config_lines unlines
  render_toml stamp cfg = unlines (config_lines stamp cfg)
