-- ===== src/Config/Headers/Text.antt =====
-- The headers of the whole rendered text.
use popu_gate.Prelude.{ℕ, ◌≡◌, refl, Bool, Str, codes, List, [], ◌∷◌, ◌++◌}
use popu_gate.UpstreamNames.Text.{has_byte}
use popu_gate.Format.Clean.{Clean}
use popu_gate.Config.Defs.{TelemtConfig}
use popu_gate.Config.Lines.{each}
use popu_gate.Config.Render.{config_lines, render_toml}
use popu_gate.Config.Headers.Rules.{Renders, headers, headers-unlines, plain_line, then_lines}
use popu_gate.Config.Headers.Entries.{blank_line}
use popu_gate.Config.Headers.Sections.{
  render_general_section-headers, render_modes_section-headers, render_links_section-headers,
  render_server_section-headers, render_timeouts_section-headers, listener_headers,
}
use popu_gate.Config.Headers.Tables.{
  render_censorship_section-headers, render_access_section-headers,
  render_upstreams_section-headers, censorship_headers, access_headers,
}

-- The tables of a configuration, in order.
abbrev pub config_headers : TelemtConfig → List Str
config_headers cfg =
    codes "[general]"
    ∷ codes "[general.modes]"
    ∷ codes "[general.links]"
    ∷ codes "[server]"
    ∷ codes "[server.api]"
    ∷ (listener_headers cfg.server
        ++ codes "[timeouts]"
          ∷ (censorship_headers cfg.censorship
              ++ (access_headers cfg.access
                  ++ each (λ up. codes "[[upstreams]]" ∷ []) cfg.upstreams)))

module _ (is_print : ℕ → Bool) where
  config_lines-headers :
      (stamp : Str) (cfg : TelemtConfig)
      → Clean stamp
      → Renders (config_lines is_print stamp cfg) (config_headers cfg)
  unfolding config_lines has_byte
  config_lines-headers stamp cfg c = plain_line _ refl refl (
      plain_line (codes "# Generated: " ++ stamp) c refl (
        blank_line (
          then_lines (render_general_section-headers is_print cfg) (
            then_lines (render_modes_section-headers cfg) (
              then_lines (render_links_section-headers is_print cfg) (
                then_lines (render_server_section-headers is_print cfg) (
                  then_lines (render_timeouts_section-headers cfg) (
                    then_lines (render_censorship_section-headers is_print cfg) (
                      then_lines (render_access_section-headers is_print cfg)
                        (render_upstreams_section-headers is_print cfg))))))))))

  -- Whatever texts a configuration holds, the lines of its rendered text that begin with a bracket
  -- are exactly the headers of its tables, in order: no label, address, password or other value
  -- adds a table or hides one. The time stamp has no line feed.
  pub headers-render_toml :
      (stamp : Str) (cfg : TelemtConfig)
      → Clean stamp
      → headers (render_toml is_print stamp cfg) ≡ config_headers cfg
  unfolding render_toml
  headers-render_toml stamp cfg c = headers-unlines (config_lines-headers stamp cfg c)
