-- ===== src/ProxyLine/Forms.antt =====
-- What ParseProxyLine reads in each form of a line.
use popu_gate.Prelude.{
  ℕ, ◌≡◌, refl, sym, ap, ◌∙◌, false, Str, codes, str_eq, List, [], ◌∷◌, ◌++◌, some, ◌==◌, arith,
}
use popu_gate.Model.Upstream.{UpstreamType, socks5, socks4}
use popu_gate.UpstreamStore.Validate.{trim_space}
use popu_gate.UpstreamNames.Text.{has_byte, split_host_port}
use popu_gate.UpstreamNames.Defs.{drop}
use popu_gate.ProxyLine.Defs.{
  parsed, fields, proxy, has_prefix, split_colons, join_colons, colon_fields, parse_colon_line,
  with_credentials, plain_fields, line_fields, checked_fields, parse_rest, parse_trimmed,
  parse_proxy_line,
}
use popu_gate.ProxyLine.Split.{
  Without, append-Without, cons-Without, split_first-append, split_last-Without, split_last-append,
  split_colons-append, IsSplit, join_colons-split_colons, split_host_port-plain,
}

-- The two schemes.
pub data Socks : Type 0 where
  v5 v4 : Socks

abbrev pub scheme : Socks → Str
scheme v5 = codes "socks5://"
scheme v4 = codes "socks4://"

abbrev pub kind_of : Socks → UpstreamType
kind_of v5 = socks5
kind_of v4 = socks4

-- A line has no white space around it.
abbrev pub IsTrimmed : Str → Type 0
IsTrimmed line = trim_space line ≡ line

-- A host or a port: no colon, bracket or at sign in it.
pub record IsPart (s : Str) : Type 0 where
  pub no_colon : Without b':' s
  pub no_open : Without b'[' s
  pub no_close : Without b']' s
  pub no_at : Without b'@' s

abbrev pub joined : Str → Str → Str
joined host port = host ++ b':' ∷ port

pub joined-Without :
    (c : ℕ) (a b : Str) → (b':' == c) ≡ false → Without c a → Without c b → Without c (joined a b)
joined-Without c a b h i j = append-Without c a (b':' ∷ b) i (cons-Without c b':' b h j)

joined-nonempty : (host port : Str) → str_eq (joined host port) [] ≡ false
unfolding str_eq
joined-nonempty [] port = refl
joined-nonempty (x ∷ host) port = refl

pub checked_nonempty :
    (k : UpstreamType) (address user pass : Str) (host_port : Str × Str)
    → str_eq address [] ≡ false
    → split_host_port address ≡ some host_port
    → checked_fields k (fields address user pass) ≡ parsed (proxy k address user pass [])
checked_nonempty k address user pass host_port e h = rw (e, h) refl

checked_joined :
    (k : UpstreamType) (host port user pass : Str)
    → IsPart host
    → IsPart port
    → checked_fields k (fields (joined host port) user pass)
      ≡ parsed (proxy k (joined host port) user pass [])
checked_joined k host port user pass h p =
    checked_nonempty k (joined host port) user pass (host, port) (joined-nonempty host port)
      (split_host_port-plain (joined host port) host port
        (split_last-append b':' host port p.no_colon) h.no_colon
        (joined-Without b'[' host port refl h.no_open p.no_open)
        (joined-Without b']' host port refl h.no_close p.no_close))

-- A line with a scheme is read as what follows it.
pub after_scheme :
    (v : Socks) (s : Str)
    → IsTrimmed (scheme v ++ s)
    → parse_proxy_line (scheme v ++ s) ≡ parse_rest (kind_of v) s
unfolding parse_proxy_line parse_trimmed str_eq drop
after_scheme v5 s t = ap parse_trimmed t
after_scheme v4 s t = ap parse_trimmed t

-- user:pass@host:port
abbrev pub at_form : Str → Str → Str → Str → Str
at_form host port user pass = (user ++ b':' ∷ pass) ++ b'@' ∷ joined host port

-- host:port:user:pass
abbrev pub colon_form : Str → Str → Str → Str → Str
colon_form host port user pass = host ++ b':' ∷ (port ++ b':' ∷ (user ++ b':' ∷ pass))

-- A line user:pass@host:port behind one of the two schemes is read back to its type, address, user
-- and password, also where the password has colons and at signs. The host and the port have no
-- colon, bracket or at sign, the user has no colon, and the line has no white space around it.
pub parse_proxy_line-at_form :
    (v : Socks) (host port user pass : Str)
    → IsPart host
    → IsPart port
    → Without b':' user
    → IsTrimmed (scheme v ++ at_form host port user pass)
    → parse_proxy_line (scheme v ++ at_form host port user pass)
      ≡ parsed (proxy (kind_of v) (joined host port) user pass [])
unfolding parse_rest
parse_proxy_line-at_form v host port user pass h p u t =
    after_scheme v (at_form host port user pass) t
    ∙ (ap (λ o. checked_fields (kind_of v) (line_fields (at_form host port user pass) o))
          (split_last-append b'@' (user ++ b':' ∷ pass) (joined host port)
            (joined-Without b'@' host port refl h.no_at p.no_at))
        ∙ (ap
              (λ o.
                checked_fields (kind_of v)
                  (with_credentials (joined host port) (user ++ b':' ∷ pass) o))
              (split_first-append b':' user pass u)
            ∙ checked_joined (kind_of v) host port user pass h p))

no_bracket_in_front :
    (host s : Str) → Without b'[' host → has_prefix (codes "[") (host ++ b':' ∷ s) ≡ false
unfolding has_byte str_eq
no_bracket_in_front [] s h = refl
no_bracket_in_front (x ∷ host) s h = ground arith

plain_unbracketed :
    (line : Str) → has_prefix (codes "[") line ≡ false → plain_fields line ≡ parse_colon_line line
plain_unbracketed line h = rw h refl

colon_fields_split :
    (line host port user pass : Str) (ps : List Str)
    → IsSplit pass ps
    → colon_fields line (host ∷ port ∷ user ∷ ps) ≡ fields (joined host port) user pass
colon_fields_split line host port user pass ps (q, qs, e, j) =
    ap (λ (rs : List Str). colon_fields line (host ∷ port ∷ user ∷ rs)) e
    ∙ ap (fields (joined host port) user) (ap join_colons (sym e) ∙ j)

parse_colon_form :
    (host port user pass : Str)
    → Without b':' host
    → Without b':' port
    → Without b':' user
    → parse_colon_line (colon_form host port user pass) ≡ fields (joined host port) user pass
unfolding parse_colon_line
parse_colon_form host port user pass h p u =
    let parts : split_colons (colon_form host port user pass)
        ≡ host ∷ port ∷ user ∷ split_colons pass =
      split_colons-append host (port ++ b':' ∷ (user ++ b':' ∷ pass)) h
      ∙ (ap (◌∷◌ host) (split_colons-append port (user ++ b':' ∷ pass) p)
          ∙ ap (λ ps. host ∷ port ∷ ps) (split_colons-append user pass u)) in
    ap (colon_fields (colon_form host port user pass)) parts
    ∙ colon_fields_split (colon_form host port user pass) host port user pass (split_colons pass)
        (join_colons-split_colons pass)

colon_form-Without :
    (host port user pass : Str)
    → Without b'@' host
    → Without b'@' port
    → Without b'@' user
    → Without b'@' pass
    → Without b'@' (colon_form host port user pass)
colon_form-Without host port user pass h p u w =
    joined-Without b'@' host _ refl h
      (joined-Without b'@' port _ refl p (joined-Without b'@' user pass refl u w))

-- A line host:port:user:pass behind one of the two schemes is read back to its type, address, user
-- and password, also where the password has colons. The host and the port have no colon, bracket
-- or at sign, the user no colon and no at sign, the password no at sign, and the line has no white
-- space around it.
pub parse_proxy_line-colon_form :
    (v : Socks) (host port user pass : Str)
    → IsPart host
    → IsPart port
    → Without b':' user
    → Without b'@' user
    → Without b'@' pass
    → IsTrimmed (scheme v ++ colon_form host port user pass)
    → parse_proxy_line (scheme v ++ colon_form host port user pass)
      ≡ parsed (proxy (kind_of v) (joined host port) user pass [])
unfolding parse_rest
parse_proxy_line-colon_form v host port user pass h p u a w t =
    let line = colon_form host port user pass in
    after_scheme v line t
    ∙ (ap (λ o. checked_fields (kind_of v) (line_fields line o))
          (split_last-Without b'@' line
            (colon_form-Without host port user pass h.no_at p.no_at a w))
        ∙ (ap (checked_fields (kind_of v)) (
              plain_unbracketed line (no_bracket_in_front host _ h.no_open)
              ∙ parse_colon_form host port user pass h.no_colon p.no_colon u)
            ∙ checked_joined (kind_of v) host port user pass h p))
