-- ===== src/UpstreamStore/Rows.antt =====
-- The SQL statements of internal/store/upstream_store.go on the rows of the table `upstreams`.
use popu_gate.Prelude.{
  ℕ, pos, Bool, true, false, Str, str_eq, List, [], ◌∷◌, Option, none, some, if◌then◌else◌,
}
use popu_gate.Model.Upstream.{Upstream, UpstreamType, direct, socks5, socks4, shadowsocks, other}

-- WHERE name = ?
unfoldable pub find : Str → List Upstream → Option Upstream
find n [] = none
find n (r ∷ rs) = if str_eq r.name n then some r else find n rs

unfoldable pub has_name : Str → List Upstream → Bool
has_name n [] = false
has_name n (r ∷ rs) = if str_eq r.name n then true else has_name n rs

-- UPDATE … WHERE name = ?
unfoldable pub update_where : Str → (Upstream → Upstream) → List Upstream → List Upstream
update_where n f [] = []
update_where n f (r ∷ rs) = (if str_eq r.name n then f r else r) ∷ update_where n f rs

-- DELETE … WHERE name = ?
unfoldable pub delete_where : Str → List Upstream → List Upstream
delete_where n [] = []
delete_where n (r ∷ rs) = if str_eq r.name n then delete_where n rs else r ∷ delete_where n rs

unfoldable pub append_row : List Upstream → Upstream → List Upstream
append_row [] r = r ∷ []
append_row (x ∷ xs) r = x ∷ append_row xs r

-- SELECT … WHERE enabled = 1
unfoldable pub enabled_only : List Upstream → List Upstream
enabled_only [] = []
enabled_only (r ∷ rs) = if r.enabled then r ∷ enabled_only rs else enabled_only rs

-- CHECK(type IN (…))
abbrev pub known_kind : UpstreamType → Bool
known_kind direct = true
known_kind socks5 = true
known_kind socks4 = true
known_kind shadowsocks = true
known_kind (other t) = false

-- The row of an INSERT: the health columns take the defaults of the schema.
abbrev pub inserted : ℕ → Upstream → Upstream
inserted new_id u = record u {
  id = new_id;
  last_check_at = pos 0;
  last_check_ok = none;
  latency_ms = pos 0;
  last_error = [];
  fail_count = 0;
  auto_disabled = false;
  auto_disabled_at = pos 0;
}

-- The columns that `Update` writes.
abbrev pub columns : Upstream → Upstream → Upstream
columns u r = record r {
  kind = u.kind;
  address = u.address;
  username = u.username;
  password = u.password;
  url = u.url;
  weight = u.weight;
  iface = u.iface;
  enabled = u.enabled;
  ipv4 = u.ipv4;
  ipv6 = u.ipv6;
  prefer = u.prefer;
  bind_to_device = u.bind_to_device;
  auto_disabled = false;
  auto_disabled_at = pos 0;
}
