-- ===== src/ProxyLine/Accepted.antt =====
-- What the upstream of an accepted line is like.
use popu_gate.Prelude.{
  ◌≡◌, refl, sym, ap, ◌∙◌, Bool, true, false, inl, inr, ◌⊎◌, Str, codes, str_eq, [], Option, none,
  some, if◌then◌else◌, pos,
}
use popu_gate.Model.Upstream.{Upstream, UpstreamType, socks5, socks4, shadowsocks}
use popu_gate.UpstreamStore.Validate.{trim_space}
use popu_gate.UpstreamNames.Text.{split_host_port, split_last}
use popu_gate.UpstreamNames.Defs.{drop}
use popu_gate.ProxyLine.Defs.{
  Parsed, parsed, refused, Fields, fields, no_fields, empty_line, LineError, proxy, has_prefix,
  line_fields, with_address, checked_fields, parse_rest, parse_trimmed, parse_proxy_line,
}

-- A proxy of the type whose address is a host and a port.
pub record IsProxy (k : UpstreamType) (u : Upstream) : Type 0 where
  pub kind : u.kind ≡ k
  pub weight : u.weight ≡ pos 10
  pub url : u.url ≡ []
  pub address : (host_port : Str × Str) × (split_host_port u.address ≡ some host_port)

-- The whole line as a URL.
pub record IsUrl (line : Str) (u : Upstream) : Type 0 where
  pub kind : u.kind ≡ shadowsocks
  pub weight : u.weight ≡ pos 10
  pub url : u.url ≡ line
  pub scheme : has_prefix (codes "ss://") line ≡ true

-- What an accepted line is.
abbrev pub IsUsable : Str → Upstream → Type 0
IsUsable line u = IsUrl line u ⊎ (IsProxy socks5 u ⊎ IsProxy socks4 u)

only : (u w : Upstream) → parsed u ≡ parsed w → u ≡ w
only u w h = cc

not_refused : (e : LineError) (w : Upstream) (P : Type 0) → refused e ≡ parsed w → P
not_refused e w P h = cc

with_address-IsProxy :
    (k : UpstreamType) (a user pass : Str) (o : Option (Str × Str)) (w : Upstream)
    → split_host_port a ≡ o
    → with_address k a user pass o ≡ parsed w
    → IsProxy k w
with_address-IsProxy k a user pass none w e h = not_refused _ w _ h
with_address-IsProxy k a user pass (some p) w e h =
    let same = only (proxy k a user pass []) w h in
    record {
      kind = ap (λ (u : Upstream). u.kind) (sym same);
      weight = ap (λ (u : Upstream). u.weight) (sym same);
      url = ap (λ (u : Upstream). u.url) (sym same);
      address = (p, ap (λ (u : Upstream). split_host_port u.address) (sym same) ∙ e);
    }

-- An accepted conditional whose first branch is an error.
behind_error :
    (b : Bool) (e : LineError) (p : Parsed) (w : Upstream)
    → (if b then refused e else p) ≡ parsed w
    → p ≡ parsed w
behind_error true e p w h = not_refused e w _ h
behind_error false e p w h = h

checked-IsProxy :
    (k : UpstreamType) (f : Fields) (w : Upstream) → checked_fields k f ≡ parsed w → IsProxy k w
checked-IsProxy k (no_fields e) w h = not_refused e w _ h
checked-IsProxy k (fields a user pass) w h =
    with_address-IsProxy k a user pass (split_host_port a) w refl
      (behind_error (str_eq a []) _ _ w h)

parse_rest-IsProxy :
    (k : UpstreamType) (s : Str) (w : Upstream) → parse_rest k s ≡ parsed w → IsProxy k w
unfolding parse_rest
parse_rest-IsProxy k s w h = checked-IsProxy k (line_fields s (split_last b'@' s)) w h

url_or :
    (b : Bool) (line : Str) (p : Parsed) (w : Upstream)
    → has_prefix (codes "ss://") line ≡ b
    → (if b then parsed (proxy shadowsocks [] [] [] line) else p) ≡ parsed w
    → (p ≡ parsed w → IsUsable line w)
    → IsUsable line w
url_or true line p w e h f =
    let same = only (proxy shadowsocks [] [] [] line) w h in
    inl (record {
      kind = ap (λ (u : Upstream). u.kind) (sym same);
      weight = ap (λ (u : Upstream). u.weight) (sym same);
      url = ap (λ (u : Upstream). u.url) (sym same);
      scheme = e;
    })
url_or false line p w e h f = f h

either_branch :
    {P : Type 0} (b : Bool) (p q : Parsed) (w : Upstream)
    → (if b then p else q) ≡ parsed w
    → (p ≡ parsed w → P)
    → (q ≡ parsed w → P)
    → P
either_branch true p q w h f g = f h
either_branch false p q w h f g = g h

-- Every accepted line is usable: its upstream is of type shadowsocks with the whole line, without
-- the white space around it, as the URL, and the line begins with ss://; or it is of type socks5 or
-- socks4 with an address that is a host and a port. Its weight is 10.
pub parse_proxy_line-IsUsable :
    (line : Str) (u : Upstream) → parse_proxy_line line ≡ parsed u → IsUsable (trim_space line) u
unfolding parse_proxy_line parse_trimmed
parse_proxy_line-IsUsable line u h =
    let s = trim_space line in
    url_or (has_prefix (codes "ss://") s) s _ u refl (behind_error (str_eq s []) empty_line _ u h)
      (λ h1.
        either_branch (has_prefix (codes "socks5://") s) _ _ u h1
          (λ h2. inr (inl (parse_rest-IsProxy socks5 (drop 9 s) u h2)))
          (λ h2.
            either_branch (has_prefix (codes "socks4://") s) _ _ u h2
              (λ h3. inr (inr (parse_rest-IsProxy socks4 (drop 9 s) u h3)))
              (λ h3. inr (inl (parse_rest-IsProxy socks5 s u h3)))))
