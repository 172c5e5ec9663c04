-- ===== src/UpstreamNames/Defs.antt =====
-- `GenerateBulkUpstreamName` of internal/service/upstream_service.go, and its helpers.
use popu_gate.Prelude.{
  ℕ, zero, suc, ◌+◌, ◌-◌, ◌*◌, ◌/◌, ◌%◌, ◌^◌, Bool, ◌&&◌, ◌||◌, Str, codes, str_eq, List, [], ◌∷◌,
  ◌++◌, Option, none, some, if◌then◌else◌, ◌==◌, leb, length, take,
}
use popu_gate.Model.Upstream.{Upstream, UpstreamType, direct, socks5, socks4, shadowsocks, other}
use popu_gate.Telemt.{hex_digit}
use popu_gate.UpstreamStore.Validate.{trim_space}
use popu_gate.UpstreamNames.Text.{split_host_port, split_last, collapse_dashes, trim_dashes, dash}

unfoldable pub drop : ℕ → Str → Str
drop zero s = s
drop (suc n) [] = []
drop (suc n) (x ∷ s) = drop n s

-- `strings.TrimPrefix(s, "ss://")`
abbrev pub without_scheme : Str → Str
without_scheme s = if str_eq (take 5 s) (codes "ss://") then drop 5 s else s

-- The text in front of the first of "#/?".
unfoldable pub before_suffix : Str → Str
before_suffix [] = []
before_suffix (x ∷ s) =
    let rest = before_suffix s in if x == b'#' || x == b'/' || x == b'?' then [] else x ∷ rest

abbrev pub checked_address : Str → Option (Str × Str) → Option Str
checked_address s none = none
checked_address s (some host_port) = some s

abbrev pub after_user : Option (Str × Str) → Option Str
after_user none = none
after_user (some (user, s)) = checked_address (before_suffix s) (split_host_port (before_suffix s))

-- `shadowsocksHostPort`, none for its errors.
unfoldable pub shadowsocks_host_port : Str → Option Str
unfolding drop before_suffix
shadowsocks_host_port raw = after_user (split_last b'@' (without_scheme (trim_space raw)))

abbrev pub bulk_name_prefix : UpstreamType → Str
bulk_name_prefix socks4 = codes "s4"
bulk_name_prefix direct = codes "dir"
bulk_name_prefix shadowsocks = codes "ss"
bulk_name_prefix socks5 = codes "s5"
bulk_name_prefix (other t) = codes "s5"

-- The results of `SplitHostPort` are empty beside an error.
abbrev pub or_empty_pair : Option (Str × Str) → Str × Str
or_empty_pair none = ([], [])
or_empty_pair (some p) = p

abbrev pub shadowsocks_display : Option Str → Str × Str
shadowsocks_display none = (codes "ss", codes "0")
shadowsocks_display (some address) = or_empty_pair (split_host_port address)

abbrev pub address_display : Str → Option (Str × Str) → Str × Str
address_display address none = (address, codes "0")
address_display address (some host_port) = host_port

unfoldable pub bulk_name_host_port : UpstreamType → Str → Str → Str × Str
unfolding shadowsocks_host_port
bulk_name_host_port shadowsocks address url = shadowsocks_display (shadowsocks_host_port url)
bulk_name_host_port direct address url = address_display address (split_host_port address)
bulk_name_host_port socks5 address url = address_display address (split_host_port address)
bulk_name_host_port socks4 address url = address_display address (split_host_port address)
bulk_name_host_port (other t) address url = address_display address (split_host_port address)

abbrev pub kind_text : UpstreamType → Str
kind_text direct = codes "direct"
kind_text socks5 = codes "socks5"
kind_text socks4 = codes "socks4"
kind_text shadowsocks = codes "shadowsocks"
kind_text (other t) = t

-- `strings.Join(parts, "\x00")`
unfoldable pub join_parts : List Str → Str
join_parts [] = []
join_parts (p ∷ []) = p
join_parts (p ∷ q ∷ ps) = p ++ 0 ∷ join_parts (q ∷ ps)

abbrev pub identity_parts : Upstream → List Str
identity_parts u =
    kind_text u.kind
    ∷ u.address
    ∷ u.username
    ∷ u.password
    ∷ u.iface
    ∷ (if str_eq u.url [] then [] else u.url ∷ [])

-- The loop over the bytes, in uint32.
unfoldable pub hash_from : ℕ → Str → ℕ
hash_from h [] = h
hash_from h (c ∷ s) = hash_from ((h * 31 + c) % 2 ^ 32) s

-- `fmt.Sprintf("%08x", h)`
unfoldable pub hex8 : ℕ → Str
hex8 h =
    hex_digit (h / 2 ^ 28 % 16)
    ∷ hex_digit (h / 2 ^ 24 % 16)
    ∷ hex_digit (h / 2 ^ 20 % 16)
    ∷ hex_digit (h / 2 ^ 16 % 16)
    ∷ hex_digit (h / 2 ^ 12 % 16)
    ∷ hex_digit (h / 2 ^ 8 % 16)
    ∷ hex_digit (h / 2 ^ 4 % 16)
    ∷ hex_digit (h % 16)
    ∷ []

unfoldable pub upstream_identity_hash : Upstream → Str
unfolding join_parts hash_from hex8
upstream_identity_hash u = hex8 (hash_from 0 (join_parts (identity_parts u)))

abbrev pub is_alphanumeric : ℕ → Bool
is_alphanumeric c =
    (leb b'a' c && leb c b'z') || (leb b'A' c && leb c b'Z') || (leb b'0' c && leb c b'9')

-- Every other character becomes a dash; the bytes of a longer one become several, which collapse.
unfoldable pub dashed : Str → Str
dashed [] = []
dashed (c ∷ s) = (if is_alphanumeric c then c else dash) ∷ dashed s

unfoldable pub sanitize_host_segment : Str → Str
unfolding dashed
sanitize_host_segment host = trim_dashes (collapse_dashes (dashed host))

-- `cleanedHost[:maxHostLen]` where it is longer; the budget is not below 0.
abbrev pub host_in : ℕ → Str → Str
host_in taken host = trim_dashes (take (32 - taken) host)

-- The name from its four segments.
unfoldable pub name_of : Str → Str → Str → Str → Str
name_of prefix host port hash = trim_dashes (
    collapse_dashes (
      prefix
      ++ dash
        ∷ (host_in (length prefix + 3 + length port + length hash) host
            ++ dash ∷ (port ++ dash ∷ hash))))

unfoldable pub generate_bulk_upstream_name : Upstream → Str
unfolding bulk_name_host_port upstream_identity_hash sanitize_host_segment name_of
generate_bulk_upstream_name u =
    name_of (bulk_name_prefix u.kind)
      (sanitize_host_segment (bulk_name_host_port u.kind u.address u.url).0)
      (bulk_name_host_port u.kind u.address u.url).1 (upstream_identity_hash u)
