-- ===== src/Config/Headers/Sections.antt =====
-- The headers that each section writes.
use popu_gate.Prelude.{
  ℕ, refl, ℤ, Bool, Str, codes, List, [], ◌∷◌, ◌++◌, if◌then◌else◌, Bool-cases, inl, inr,
}
use popu_gate.UpstreamNames.Text.{has_byte}
use popu_gate.Format.Decimal.{format_int}
use popu_gate.Format.Clean.{format_int-Clean}
use popu_gate.Config.Defs.{TelemtConfig, ServerConfig}
use popu_gate.Config.Access.{is_positive}
use popu_gate.Config.Lines.{given, each, text_entry}
use popu_gate.Config.Server.{
  render_general_section, render_modes_section, render_links_section, render_server_section,
  render_timeouts_section, render_server_listeners, listener, listen_addrs, api_lines,
}
use popu_gate.Config.Headers.Entries.{
  spelled, blank_line, last_blank, int_line, flag_line, text_line, array_line, optional_int,
  optional_text, optional_array, entry_under, quoted_int-Clean,
}
use popu_gate.Config.Headers.Rules.{Renders, no_lines, header_line, plain_line, each_lines}

pub render_modes_section-headers :
    (cfg : TelemtConfig) → Renders (render_modes_section cfg) (codes "[general.modes]" ∷ [])
unfolding render_modes_section has_byte
render_modes_section-headers cfg = header_line (codes "[general.modes]") refl refl (
    flag_line {key = codes "classic"} (spelled refl refl) cfg.general.modes.classic (
      flag_line {key = codes "secure"} (spelled refl refl) cfg.general.modes.secure
        (flag_line {key = codes "tls"} (spelled refl refl) cfg.general.modes.tls last_blank)))

pub render_timeouts_section-headers :
    (cfg : TelemtConfig) → Renders (render_timeouts_section cfg) (codes "[timeouts]" ∷ [])
unfolding render_timeouts_section has_byte
render_timeouts_section-headers cfg = header_line (codes "[timeouts]") refl refl (
    int_line {key = codes "client_handshake"} (spelled refl refl) cfg.timeouts.client_handshake (
      int_line {key = codes "client_keepalive"} (spelled refl refl) cfg.timeouts.client_keepalive (
        int_line {key = codes "client_ack"} (spelled refl refl) cfg.timeouts.client_ack
          last_blank)))

-- One table for each address, where the limiter is on.
abbrev pub listener_headers : ServerConfig → List Str
listener_headers s =
    if given s.synlimit then each (λ ip. codes "[[server.listeners]]" ∷ []) (listen_addrs s) else []

module _ (is_print : ℕ → Bool) where
  ad_tag_line :
      {ls hs : List Str} (s : Str)
      → Renders ls hs
      → Renders
          ((if given s
              then text_entry is_print (codes "ad_tag") s
              else codes "# ad_tag = \"\"  # Get from @MTProxyBot")
            ∷ ls)
          hs
  unfolding has_byte
  ad_tag_line s r = elim (Bool-cases (given s)) [
    | inl e ↦ rw e (text_line {key = codes "ad_tag"} (spelled refl refl) is_print s r)
    | inr e ↦ rw e (plain_line (codes "# ad_tag = \"\"  # Get from @MTProxyBot") refl refl r)
  ]

  pub render_general_section-headers :
      (cfg : TelemtConfig) → Renders (render_general_section is_print cfg) (codes "[general]" ∷ [])
  unfolding render_general_section has_byte
  render_general_section-headers cfg =
      let g = cfg.general in
      let tg = cfg.telegram in
      header_line (codes "[general]") refl refl (
        flag_line {key = codes "prefer_ipv6"} (spelled refl refl) g.prefer_ipv6 (
          flag_line {key = codes "fast_mode"} (spelled refl refl) g.fast_mode (
            flag_line {key = codes "use_middle_proxy"} (spelled refl refl) g.use_middle_proxy (
              text_line {key = codes "log_level"} (spelled refl refl) is_print g.log_level (
                ad_tag_line g.ad_tag (
                  int_line {key = codes "tg_connect"} (spelled refl refl) cfg.timeouts.tg_connect (
                    optional_text {key = codes "proxy_secret_url"} (spelled refl refl) is_print _
                      tg.proxy_secret_url
                      (optional_text {key = codes "proxy_config_v4_url"} (spelled refl refl)
                        is_print _ tg.proxy_config_v4_url
                        (optional_text {key = codes "proxy_config_v6_url"} (spelled refl refl)
                          is_print _ tg.proxy_config_v6_url last_blank)))))))))

  pub render_links_section-headers :
      (cfg : TelemtConfig)
      → Renders (render_links_section is_print cfg) (codes "[general.links]" ∷ [])
  unfolding render_links_section has_byte
  render_links_section-headers cfg = header_line (codes "[general.links]") refl refl (
      array_line {key = codes "show"} (spelled refl refl) is_print cfg.general.links.show (
        plain_line (codes "# public_host = \"\"") refl refl (
          plain_line (codes "# public_port = " ++ format_int cfg.server.port)
            (format_int-Clean cfg.server.port) refl last_blank)))

  listener-headers :
      (s : ServerConfig) (ip : Str)
      → Renders (listener is_print s ip) (codes "[[server.listeners]]" ∷ [])
  unfolding listener has_byte
  listener-headers s ip = header_line (codes "[[server.listeners]]") refl refl (
      text_line {key = codes "ip"} (spelled refl refl) is_print ip (
        int_line {key = codes "port"} (spelled refl refl) s.port (
          text_line {key = codes "synlimit"} (spelled refl refl) is_print s.synlimit (
            optional_int {key = codes "synlimit_seconds"} (spelled refl refl) _ s.synlimit_seconds (
              optional_int {key = codes "synlimit_hitcount"} (spelled refl refl) _
                s.synlimit_hitcount
                (optional_int {key = codes "synlimit_burst"} (spelled refl refl) _ s.synlimit_burst
                  last_blank))))))

  render_server_listeners-headers :
      (s : ServerConfig) → Renders (render_server_listeners is_print s) (listener_headers s)
  unfolding render_server_listeners
  render_server_listeners-headers s = elim (Bool-cases (given s.synlimit)) [
    | inl e ↦ rw e (each_lines (listener-headers s) (listen_addrs s))
    | inr e ↦ rw e no_lines
  ]

  api_lines-headers :
      {ls hs : List Str} (port : ℤ) → Renders ls hs → Renders (api_lines is_print port ++ ls) hs
  unfolding api_lines has_byte
  api_lines-headers port r = elim (Bool-cases (is_positive port)) [
    | inl e ↦ rw e (
        plain_line (codes "enabled = true") refl refl
          (text_line {key = codes "listen"} (spelled refl refl) is_print _ r))
    | inr e ↦ rw e (plain_line (codes "enabled = false") refl refl r)
  ]

  pub render_server_section-headers :
      (cfg : TelemtConfig)
      → Renders
          (render_server_section is_print cfg)
          (codes "[server]" ∷ codes "[server.api]" ∷ listener_headers cfg.server)
  unfolding render_server_section has_byte
  render_server_section-headers cfg =
      let s = cfg.server in
      header_line (codes "[server]") refl refl (
        int_line {key = codes "port"} (spelled refl refl) s.port (
          text_line {key = codes "listen_addr_ipv4"} (spelled refl refl) is_print s.listen_addr_ipv4
            (text_line {key = codes "listen_addr_ipv6"} (spelled refl refl) is_print
              s.listen_addr_ipv6
              (flag_line {key = codes "proxy_protocol"} (spelled refl refl) s.proxy_protocol (
                optional_array {key = codes "proxy_protocol_trusted_cidrs"} (spelled refl refl)
                  is_print _ s.proxy_protocol_trusted_cidrs
                  (text_line {key = codes "metrics_listen"} (spelled refl refl) is_print
                    s.metrics_listen
                    (array_line {key = codes "metrics_whitelist"} (spelled refl refl) is_print
                      s.metrics_whitelist
                      (entry_under {key = codes "client_mss"} (spelled refl refl) _ _
                        (quoted_int-Clean s.client_mss)
                        (entry_under {key = codes "client_mss_bulk"} (spelled refl refl) _ _
                          (quoted_int-Clean s.client_mss_bulk)
                          (blank_line (
                            header_line (codes "[server.api]") refl refl (
                              api_lines-headers s.api_port
                                (blank_line (render_server_listeners-headers s))))))))))))))
