-- ===== src/ProxyLine/Defs.antt =====
-- `ParseProxyLine` of internal/service/upstream_service.go, with its two helpers.
use popu_gate.Prelude.{
  ℕ, pos, Bool, false, Str, codes, str_eq, List, [], ◌∷◌, ◌++◌, Option, none, some, if◌then◌else◌,
  ◌==◌, length, take,
}
use popu_gate.Model.Upstream.{Upstream, UpstreamType, socks5, socks4, shadowsocks}
use popu_gate.UpstreamStore.Validate.{trim_space}
use popu_gate.UpstreamNames.Text.{split_first, split_last, split_host_port}
use popu_gate.UpstreamNames.Defs.{drop}

-- The errors, told apart by what their messages say.
pub data LineError : Type 0 where
  empty_line no_bracket no_port no_format no_address bad_address : LineError

pub data Parsed : Type 0 where
  parsed : Upstream → Parsed
  refused : LineError → Parsed

-- The upstream with the given fields, and the defaults that the line does not set.
abbrev pub proxy : UpstreamType → Str → Str → Str → Str → Upstream
proxy k address username password url = record {
  id = 0;
  name = [];
  kind = k;
  address = address;
  username = username;
  password = password;
  url = url;
  weight = pos 10;
  iface = [];
  enabled = false;
  ipv4 = none;
  ipv6 = none;
  prefer = pos 0;
  bind_to_device = [];
  last_check_at = pos 0;
  last_check_ok = none;
  latency_ms = pos 0;
  last_error = [];
  fail_count = 0;
  auto_disabled = false;
  auto_disabled_at = pos 0;
}

-- `strings.HasPrefix(s, p)`
abbrev pub has_prefix : Str → Str → Bool
has_prefix p s = str_eq (take (length p) s) p

-- The part in front of the first colon gets a further byte.
abbrev pub onto_first : ℕ → List Str → List Str
onto_first c [] = (c ∷ []) ∷ []
onto_first c (p ∷ ps) = (c ∷ p) ∷ ps

-- `strings.Split(s, ":")`
unfoldable pub split_colons : Str → List Str
split_colons [] = [] ∷ []
split_colons (c ∷ s) =
    let rest = split_colons s in if c == b':' then [] ∷ rest else onto_first c rest

-- `strings.Join(parts, ":")`
unfoldable pub join_colons : List Str → Str
join_colons [] = []
join_colons (p ∷ []) = p
join_colons (p ∷ q ∷ ps) = p ++ b':' ∷ join_colons (q ∷ ps)

-- `strings.SplitN(s, ":", 3)`, from what the first colons leave.
abbrev pub split_two : Option (Str × Str) → Str → List Str
split_two none s = s ∷ []
split_two (some (a, b)) s = a ∷ b ∷ []

abbrev pub split_three : Option (Str × Str) → Str → List Str
split_three none s = s ∷ []
split_three (some (a, b)) s = a ∷ split_two (split_first b':' b) b

-- `strings.TrimPrefix(s, ":")`
abbrev pub without_colon : Str → Str
without_colon [] = []
without_colon (c ∷ s) = if c == b':' then s else c ∷ s

-- The address and the credentials of a line, or the error.
pub data Fields : Type 0 where
  fields : Str → Str → Str → Fields
  no_fields : LineError → Fields

abbrev pub bracketed_fields : Str → List Str → Fields
bracketed_fields host [] = no_fields no_port
bracketed_fields host ([] ∷ ps) = no_fields no_port
bracketed_fields host ((c ∷ p) ∷ []) = fields (host ++ b':' ∷ c ∷ p) [] []
bracketed_fields host ((c ∷ p) ∷ user ∷ []) = fields (host ++ b':' ∷ c ∷ p) user []
bracketed_fields host ((c ∷ p) ∷ user ∷ pass ∷ ps) = fields (host ++ b':' ∷ c ∷ p) user pass

abbrev pub after_bracket : Option (Str × Str) → Fields
after_bracket none = no_fields no_bracket
after_bracket (some (host, s)) =
    bracketed_fields (host ++ b']' ∷ [])
      (split_three (split_first b':' (without_colon s)) (without_colon s))

-- `parseBracketedIPv6Line`
unfoldable pub parse_bracketed_line : Str → Fields
unfolding split_first
parse_bracketed_line line = after_bracket (split_first b']' line)

abbrev pub colon_fields : Str → List Str → Fields
colon_fields line [] = no_fields no_format
colon_fields line (host ∷ []) = no_fields no_format
colon_fields line (host ∷ port ∷ []) = fields line [] []
colon_fields line (host ∷ port ∷ user ∷ []) = fields (host ++ b':' ∷ port) user []
colon_fields line (host ∷ port ∷ user ∷ pass ∷ ps) =
    fields (host ++ b':' ∷ port) user (join_colons (pass ∷ ps))

-- `parseColonFormLine`
unfoldable pub parse_colon_line : Str → Fields
unfolding split_colons join_colons
parse_colon_line line = colon_fields line (split_colons line)

abbrev pub with_credentials : Str → Str → Option (Str × Str) → Fields
with_credentials address creds none = fields address creds []
with_credentials address creds (some (user, pass)) = fields address user pass

-- The forms without credentials in front.
abbrev pub plain_fields : Str → Fields
plain_fields line =
    if has_prefix (codes "[") line then parse_bracketed_line line else parse_colon_line line

abbrev pub line_fields : Str → Option (Str × Str) → Fields
line_fields line none = plain_fields line
line_fields line (some (creds, address)) = with_credentials address creds (split_first b':' creds)

-- The checks of the address.
abbrev pub with_address : UpstreamType → Str → Str → Str → Option (Str × Str) → Parsed
with_address k address user pass none = refused bad_address
with_address k address user pass (some host_port) = parsed (proxy k address user pass [])

abbrev pub checked_fields : UpstreamType → Fields → Parsed
checked_fields k (no_fields e) = refused e
checked_fields k (fields address user pass) =
    if str_eq address []
    then refused no_address
    else with_address k address user pass (split_host_port address)

-- What follows the scheme.
unfoldable pub parse_rest : UpstreamType → Str → Parsed
unfolding split_last parse_bracketed_line parse_colon_line
parse_rest k line = checked_fields k (line_fields line (split_last b'@' line))

unfoldable pub parse_trimmed : Str → Parsed
unfolding parse_rest
parse_trimmed line =
    if str_eq line []
    then refused empty_line
    else if has_prefix (codes "ss://") line
    then parsed (proxy shadowsocks [] [] [] line)
    else if has_prefix (codes "socks5://") line
    then parse_rest socks5 (drop 9 line)
    else if has_prefix (codes "socks4://") line
    then parse_rest socks4 (drop 9 line)
    else parse_rest socks5 line

-- `ParseProxyLine`
unfoldable pub parse_proxy_line : Str → Parsed
unfolding trim_space parse_trimmed
parse_proxy_line line = parse_trimmed (trim_space line)
