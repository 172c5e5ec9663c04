-- ===== src/ProxyLine/Bracketed.antt =====
-- What ParseProxyLine reads in a line that begins with an IPv6 address in brackets.
use popu_gate.Prelude.{ℕ, ◌≡◌, refl, ap, ◌∙◌, Str, str_eq, [], ◌∷◌, ◌++◌, some}
use mathlib.Core.List.{append_assoc}
use popu_gate.UpstreamNames.Text.{split_first, split_host_port, bracketed}
use popu_gate.ProxyLine.Defs.{
  parsed, fields, proxy, after_bracket, bracketed_fields, split_two, split_three,
  parse_bracketed_line, plain_fields, line_fields, checked_fields, parse_rest, parse_proxy_line,
}
use popu_gate.ProxyLine.Split.{
  Without, append-Without, cons-Without, split_first-append, split_last-Without,
}
use popu_gate.ProxyLine.Forms.{
  Socks, scheme, kind_of, IsTrimmed, IsPart, joined-Without, after_scheme, checked_nonempty,
}

-- An address in brackets: colons, but no bracket or at sign in it.
pub record IsAddress (s : Str) : Type 0 where
  pub no_open : Without b'[' s
  pub no_close : Without b']' s
  pub no_at : Without b'@' s

-- [ip]:port
abbrev pub bracket_joined : Str → Str → Str
bracket_joined ip port = (b'[' ∷ (ip ++ b']' ∷ [])) ++ b':' ∷ port

-- [ip]:port:user:pass
abbrev pub bracket_form : Str → Str → Str → Str → Str
bracket_form ip port user pass =
    (b'[' ∷ ip) ++ b']' ∷ (b':' ∷ (port ++ b':' ∷ (user ++ b':' ∷ pass)))

bracketed_port :
    (rest host port : Str)
    → Without b':' port
    → Without b'[' rest
    → Without b']' port
    → bracketed rest (some (host, b':' ∷ port)) ≡ some (host, port)
bracketed_port rest host port h i j = rw (h, i, j) refl

split_host_port-bracketed :
    (ip port : Str)
    → IsAddress ip
    → IsPart port
    → split_host_port (bracket_joined ip port) ≡ some (ip, port)
unfolding split_host_port
split_host_port-bracketed ip port a p =
    ap (λ (s : Str). bracketed s (split_first b']' s)) (append_assoc ip (b']' ∷ []) (b':' ∷ port))
    ∙ (ap (bracketed (ip ++ b']' ∷ (b':' ∷ port)))
          (split_first-append b']' ip (b':' ∷ port) a.no_close)
        ∙ bracketed_port (ip ++ b']' ∷ (b':' ∷ port)) ip port p.no_colon
            (append-Without b'[' ip _ a.no_open (
              cons-Without b'[' b']' (b':' ∷ port) refl
                (cons-Without b'[' b':' port refl p.no_open)))
            p.no_close)

plain_bracketed : (s : Str) → plain_fields (b'[' ∷ s) ≡ parse_bracketed_line (b'[' ∷ s)
unfolding str_eq
plain_bracketed s = refl

parse_bracket_form :
    (c : ℕ) (ip port user pass : Str)
    → Without b']' ip
    → Without b':' (c ∷ port)
    → Without b':' user
    → parse_bracketed_line (bracket_form ip (c ∷ port) user pass)
      ≡ fields (bracket_joined ip (c ∷ port)) user pass
unfolding parse_bracketed_line
parse_bracket_form c ip port user pass a p u =
    let host = b'[' ∷ (ip ++ b']' ∷ []) in
    let credentials = user ++ b':' ∷ pass in
    let rest = (c ∷ port) ++ b':' ∷ credentials in
    ap after_bracket
      (split_first-append b']' (b'[' ∷ ip) (b':' ∷ rest) (cons-Without b']' b'[' ip refl a))
    ∙ (ap (λ o. bracketed_fields host (split_three o rest))
          (split_first-append b':' (c ∷ port) credentials p)
        ∙ ap (λ o. bracketed_fields host ((c ∷ port) ∷ split_two o credentials))
            (split_first-append b':' user pass u))

bracket_form-Without :
    (ip port user pass : Str)
    → Without b'@' ip
    → Without b'@' port
    → Without b'@' user
    → Without b'@' pass
    → Without b'@' (bracket_form ip port user pass)
bracket_form-Without ip port user pass a p u w =
    let credentials = user ++ b':' ∷ pass in
    let rest = port ++ b':' ∷ credentials in
    append-Without b'@' (b'[' ∷ ip) (b']' ∷ (b':' ∷ rest)) (cons-Without b'@' b'[' ip refl a) (
      cons-Without b'@' b']' (b':' ∷ rest) refl (
        cons-Without b'@' b':' rest refl
          (joined-Without b'@' port credentials refl p (joined-Without b'@' user pass refl u w))))

-- A line [ip]:port:user:pass behind one of the two schemes is read back to its type, its address
-- with the brackets, its user and its password, also where the password has colons. The IP address
-- has no bracket or at sign; the port is not empty, and has no colon, bracket or at sign; the user
-- has no colon and no at sign; the password has no at sign; and the line has no white space around
-- it.
pub parse_proxy_line-bracket_form :
    (v : Socks) (c : ℕ) (ip port user pass : Str)
    → IsAddress ip
    → IsPart (c ∷ port)
    → Without b':' user
    → Without b'@' user
    → Without b'@' pass
    → IsTrimmed (scheme v ++ bracket_form ip (c ∷ port) user pass)
    → parse_proxy_line (scheme v ++ bracket_form ip (c ∷ port) user pass)
      ≡ parsed (proxy (kind_of v) (bracket_joined ip (c ∷ port)) user pass [])
unfolding parse_rest str_eq
parse_proxy_line-bracket_form v c ip port user pass a p u at w t =
    let line = bracket_form ip (c ∷ port) user pass in
    let no_at = bracket_form-Without ip (c ∷ port) user pass a.no_at p.no_at at w in
    after_scheme v line t
    ∙ (ap (λ o. checked_fields (kind_of v) (line_fields line o))
          (split_last-Without b'@' line no_at)
        ∙ (ap (checked_fields (kind_of v)) (
              plain_bracketed (ip ++ b']' ∷ (b':' ∷ ((c ∷ port) ++ b':' ∷ (user ++ b':' ∷ pass))))
              ∙ parse_bracket_form c ip port user pass a.no_close p.no_colon u)
            ∙ checked_nonempty (kind_of v) (bracket_joined ip (c ∷ port)) user pass (ip, c ∷ port)
                refl (split_host_port-bracketed ip (c ∷ port) a p)))
