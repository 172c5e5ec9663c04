-- ===== src/Examples/Lines.antt =====
-- Proxy lines at concrete inputs.
use popu_gate.Prelude.{◌≡◌, refl, str_eq, codes, []}
use popu_gate.Model.Upstream.{socks5, socks4}
use popu_gate.UpstreamStore.Validate.{trim_space}
use popu_gate.UpstreamNames.Text.{has_byte, split_host_port}
use popu_gate.ProxyLine.Defs.{parsed, proxy, parse_proxy_line, parse_trimmed}
use popu_gate.ProxyLine.Forms.{
  v5, v4, IsPart, parse_proxy_line-at_form, parse_proxy_line-colon_form,
}
use popu_gate.ProxyLine.Bracketed.{IsAddress, parse_proxy_line-bracket_form}
use popu_gate.ProxyLine.Accepted.{IsUsable, parse_proxy_line-IsUsable}

host-IsPart : IsPart (codes "10.0.0.1")
unfolding has_byte
host-IsPart = record { no_colon = refl; no_open = refl; no_close = refl; no_at = refl }

port-IsPart : IsPart (codes "1080")
unfolding has_byte
port-IsPart = record { no_colon = refl; no_open = refl; no_close = refl; no_at = refl }

localhost-IsAddress : IsAddress (codes "::1")
unfolding has_byte
localhost-IsAddress = record { no_open = refl; no_close = refl; no_at = refl }

parse_proxy_line-at_form_example :
    parse_proxy_line (codes "socks5://ann:p:@ss@10.0.0.1:1080")
    ≡ parsed (proxy socks5 (codes "10.0.0.1:1080") (codes "ann") (codes "p:@ss") [])
unfolding has_byte trim_space
parse_proxy_line-at_form_example =
    parse_proxy_line-at_form v5 (codes "10.0.0.1") (codes "1080") (codes "ann") (codes "p:@ss")
      host-IsPart port-IsPart refl refl

parse_proxy_line-colon_form_example :
    parse_proxy_line (codes "socks4://10.0.0.1:1080:ann:p:ss")
    ≡ parsed (proxy socks4 (codes "10.0.0.1:1080") (codes "ann") (codes "p:ss") [])
unfolding has_byte trim_space
parse_proxy_line-colon_form_example =
    parse_proxy_line-colon_form v4 (codes "10.0.0.1") (codes "1080") (codes "ann") (codes "p:ss")
      host-IsPart port-IsPart refl refl refl refl

parse_proxy_line-bracket_form_example :
    parse_proxy_line (codes "socks5://[::1]:1080:ann:p:ss")
    ≡ parsed (proxy socks5 (codes "[::1]:1080") (codes "ann") (codes "p:ss") [])
unfolding has_byte trim_space
parse_proxy_line-bracket_form_example =
    parse_proxy_line-bracket_form v5 b'1' (codes "::1") (codes "080") (codes "ann") (codes "p:ss")
      localhost-IsAddress port-IsPart refl refl refl refl

parse_proxy_line-IsUsable_example :
    IsUsable (codes "10.0.0.1:1080") (proxy socks5 (codes "10.0.0.1:1080") [] [] [])
unfolding parse_proxy_line parse_trimmed str_eq trim_space split_host_port
parse_proxy_line-IsUsable_example =
    parse_proxy_line-IsUsable (codes " 10.0.0.1:1080\n")
      (proxy socks5 (codes "10.0.0.1:1080") [] [] []) refl
