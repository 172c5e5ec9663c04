-- ===== src/Config/Server.antt =====
-- The sections of pkg/telemt/config.go in front of [censorship], as the lines that each writes.
use popu_gate.Prelude.{ℕ, ℤ, Bool, not, ◌&&◌, Str, codes, List, [], ◌∷◌, ◌++◌, if◌then◌else◌}
use popu_gate.Format.Decimal.{format_int, format_bool}
use popu_gate.Config.Access.{is_positive}
use popu_gate.Config.Parts.{is_empty}
use popu_gate.Config.Defs.{TelemtConfig, ServerConfig}
use popu_gate.Config.Lines.{entry, optional, given, each, text_entry, format_string_array}

-- `%d` between quotation marks.
abbrev pub quoted_int : ℤ → Str
quoted_int z = codes "\"" ++ (format_int z ++ codes "\"")

-- `renderModesSection`
unfoldable pub render_modes_section : TelemtConfig → List Str
render_modes_section cfg =
    let modes = cfg.general.modes in
    codes "[general.modes]"
    ∷ entry (codes "classic") (format_bool modes.classic)
    ∷ entry (codes "secure") (format_bool modes.secure)
    ∷ entry (codes "tls") (format_bool modes.tls)
    ∷ []
    ∷ []

-- `renderTimeoutsSection`
unfoldable pub render_timeouts_section : TelemtConfig → List Str
render_timeouts_section cfg =
    let timeouts = cfg.timeouts in
    codes "[timeouts]"
    ∷ entry (codes "client_handshake") (format_int timeouts.client_handshake)
    ∷ entry (codes "client_keepalive") (format_int timeouts.client_keepalive)
    ∷ entry (codes "client_ack") (format_int timeouts.client_ack)
    ∷ []
    ∷ []

-- The addresses of `renderServerListeners`.
unfoldable pub listen_addrs : ServerConfig → List Str
listen_addrs s =
    optional (given s.listen_addr_ipv4) s.listen_addr_ipv4
    ++ optional (given s.listen_addr_ipv6) s.listen_addr_ipv6

module _ (is_print : ℕ → Bool) where
  -- `renderGeneralSection`
  unfoldable pub render_general_section : TelemtConfig → List Str
  render_general_section cfg =
      let g = cfg.general in
      let tg = cfg.telegram in
      codes "[general]"
      ∷ entry (codes "prefer_ipv6") (format_bool g.prefer_ipv6)
      ∷ entry (codes "fast_mode") (format_bool g.fast_mode)
      ∷ entry (codes "use_middle_proxy") (format_bool g.use_middle_proxy)
      ∷ text_entry is_print (codes "log_level") g.log_level
      ∷ (if given g.ad_tag
          then text_entry is_print (codes "ad_tag") g.ad_tag
          else codes "# ad_tag = \"\"  # Get from @MTProxyBot")
      ∷ entry (codes "tg_connect") (format_int cfg.timeouts.tg_connect)
      ∷ (optional (given tg.proxy_secret_url)
            (text_entry is_print (codes "proxy_secret_url") tg.proxy_secret_url)
          ++ (optional (given tg.proxy_config_v4_url)
                (text_entry is_print (codes "proxy_config_v4_url") tg.proxy_config_v4_url)
              ++ (optional (given tg.proxy_config_v6_url)
                    (text_entry is_print (codes "proxy_config_v6_url") tg.proxy_config_v6_url)
                  ++ [] ∷ [])))

  -- `renderLinksSection`
  unfoldable pub render_links_section : TelemtConfig → List Str
  unfolding format_string_array
  render_links_section cfg =
      codes "[general.links]"
      ∷ entry (codes "show") (format_string_array is_print cfg.general.links.show)
      ∷ codes "# public_host = \"\""
      ∷ (codes "# public_port = " ++ format_int cfg.server.port)
      ∷ []
      ∷ []

  -- The round of `renderServerListeners` for one address.
  unfoldable pub listener : ServerConfig → Str → List Str
  listener s ip =
      codes "[[server.listeners]]"
      ∷ text_entry is_print (codes "ip") ip
      ∷ entry (codes "port") (format_int s.port)
      ∷ text_entry is_print (codes "synlimit") s.synlimit
      ∷ (optional (is_positive s.synlimit_seconds)
            (entry (codes "synlimit_seconds") (format_int s.synlimit_seconds))
          ++ (optional (is_positive s.synlimit_hitcount)
                (entry (codes "synlimit_hitcount") (format_int s.synlimit_hitcount))
              ++ (optional (is_positive s.synlimit_burst)
                    (entry (codes "synlimit_burst") (format_int s.synlimit_burst))
                  ++ [] ∷ [])))

  -- `renderServerListeners`
  unfoldable pub render_server_listeners : ServerConfig → List Str
  unfolding listener listen_addrs each
  render_server_listeners s = if given s.synlimit then each (listener s) (listen_addrs s) else []

  -- The lines of the table [server.api].
  unfoldable pub api_lines : ℤ → List Str
  api_lines port =
      if is_positive port
      then codes "enabled = true"
        ∷ text_entry is_print (codes "listen") (codes "127.0.0.1:" ++ format_int port)
        ∷ []
      else codes "enabled = false" ∷ []

  -- `renderServerSection`
  unfoldable pub render_server_section : TelemtConfig → List Str
  unfolding format_string_array render_server_listeners
  render_server_section cfg =
      let s = cfg.server in
      codes "[server]"
      ∷ entry (codes "port") (format_int s.port)
      ∷ text_entry is_print (codes "listen_addr_ipv4") s.listen_addr_ipv4
      ∷ text_entry is_print (codes "listen_addr_ipv6") s.listen_addr_ipv6
      ∷ entry (codes "proxy_protocol") (format_bool s.proxy_protocol)
      ∷ (optional (s.proxy_protocol && not (is_empty s.proxy_protocol_trusted_cidrs)) (
            entry (codes "proxy_protocol_trusted_cidrs")
              (format_string_array is_print s.proxy_protocol_trusted_cidrs))
          ++ text_entry is_print (codes "metrics_listen") s.metrics_listen
            ∷ entry (codes "metrics_whitelist") (format_string_array is_print s.metrics_whitelist)
            ∷ (optional (is_positive s.client_mss)
                  (entry (codes "client_mss") (quoted_int s.client_mss))
                ++ (optional (is_positive s.client_mss && is_positive s.client_mss_bulk)
                      (entry (codes "client_mss_bulk") (quoted_int s.client_mss_bulk))
                    ++ []
                      ∷ codes "[server.api]"
                      ∷ (api_lines s.api_port ++ [] ∷ render_server_listeners s))))
