-- ===== src/UpstreamStore/Validate.antt =====
-- internal/model/upstream.go: `Validate` of an upstream.
use popu_gate.Prelude.{
  ℕ, zero, suc, ℤ, pos, negsuc, Bool, true, false, not, ◌&&◌, ◌||◌, Str, codes, str_eq, [], ◌∷◌,
  Option, none, some, if◌then◌else◌, ◌==◌, leb, ltb, leb_ℤ, length, take,
}
use popu_gate.Model.Upstream.{Upstream, UpstreamType, direct, socks5, socks4, shadowsocks, other}

-- The white space of package unicode that UTF-8 encodes in one, two and three bytes.
abbrev pub space1 : ℕ → Bool
space1 a = (leb 9 a && leb a 13) || a == 32

abbrev pub space2 : ℕ → ℕ → Bool
space2 a b = a == 194 && (b == 133 || b == 160)

abbrev pub space3 : ℕ → ℕ → ℕ → Bool
space3 a b c =
    (a == 225 && b == 154 && c == 128)
    || (a == 226 && b == 128 && ((leb 128 c && leb c 138) || c == 168 || c == 169 || c == 175))
    || (a == 226 && b == 129 && c == 159)
    || (a == 227 && b == 128 && c == 128)

-- The bytes of the white space that a text begins with, 0 where it begins with none.
unfoldable pub space_width : Str → ℕ
space_width [] = 0
space_width (a ∷ []) = if space1 a then 1 else 0
space_width (a ∷ b ∷ []) = if space1 a then 1 else if space2 a b then 2 else 0
space_width (a ∷ b ∷ c ∷ s) =
    if space1 a then 1 else if space2 a b then 2 else if space3 a b c then 3 else 0

-- The same for a text read from its end.
unfoldable pub space_width_back : Str → ℕ
space_width_back [] = 0
space_width_back (a ∷ []) = if space1 a then 1 else 0
space_width_back (a ∷ b ∷ []) = if space1 a then 1 else if space2 b a then 2 else 0
space_width_back (a ∷ b ∷ c ∷ s) =
    if space1 a then 1 else if space2 b a then 2 else if space3 c b a then 3 else 0

-- Leaves out `skip` bytes, then every white space in front.
unfoldable pub trim_front : (Str → ℕ) → ℕ → Str → Str
trim_front width skip [] = []
trim_front width (suc skip) (a ∷ s) = trim_front width skip s
trim_front width zero (a ∷ s) = elim (width (a ∷ s)) [
  | zero ↦ a ∷ s
  | suc rest ↦ trim_front width rest s
]

unfoldable pub backwards : Str → Str → Str
backwards [] acc = acc
backwards (a ∷ s) acc = backwards s (a ∷ acc)

-- `strings.TrimSpace`
unfoldable pub trim_space : Str → Str
unfolding trim_front backwards space_width space_width_back
trim_space s =
    backwards (trim_front space_width_back 0 (backwards (trim_front space_width 0 s) [])) []

-- `isShadowsocksURL`
unfoldable pub is_shadowsocks_url : Str → Bool
unfolding trim_space
is_shadowsocks_url s =
    str_eq (take 5 (trim_space s)) (codes "ss://") && ltb 5 (length (trim_space s))

abbrev pub is_shadowsocks : UpstreamType → Bool
is_shadowsocks shadowsocks = true
is_shadowsocks direct = false
is_shadowsocks socks5 = false
is_shadowsocks socks4 = false
is_shadowsocks (other t) = false

abbrev pub is_direct : UpstreamType → Bool
is_direct direct = true
is_direct socks5 = false
is_direct socks4 = false
is_direct shadowsocks = false
is_direct (other t) = false

abbrev pub name_ok : Str → Bool
name_ok name = not (str_eq name []) && leb (length name) 32

abbrev pub target_ok : UpstreamType → Str → Str → Bool
target_ok direct address url = true
target_ok socks5 address url = not (str_eq address [])
target_ok socks4 address url = not (str_eq address [])
target_ok shadowsocks address url = is_shadowsocks_url url
target_ok (other t) address url = false

abbrev pub weight_ok : ℤ → Bool
weight_ok w = leb_ℤ (pos 1) w && leb_ℤ w (pos 100)

abbrev pub families_ok : Option Bool → Option Bool → Bool
families_ok (some false) (some false) = false
families_ok (some false) (some true) = true
families_ok (some false) none = true
families_ok (some true) v6 = true
families_ok none v6 = true

abbrev pub prefer_ok : ℤ → Bool
prefer_ok (pos n) = n == 0 || n == 4 || n == 6
prefer_ok (negsuc n) = false

-- `Validate`; the checks are in the order of the source, and every failure is the same error.
unfoldable pub validate : Upstream → Bool
validate u =
    name_ok u.name
    && (target_ok u.kind u.address u.url
        && (weight_ok u.weight
            && (families_ok u.ipv4 u.ipv6
                && (prefer_ok u.prefer && (str_eq u.bind_to_device [] || is_direct u.kind)))))
