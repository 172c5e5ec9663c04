-- ===== src/UpstreamNames/Valid.antt =====
-- The names of `GenerateBulkUpstreamName`, and the check of names in `Validate`.
use popu_gate.Prelude.{
  ℕ, zero, suc, ◌+◌, ◌-◌, ◌≤◌, ◌≡◌, refl, ◌∙◌, Bool, true, false, ◌||◌, Str, str_eq, [], ◌∷◌, ◌++◌,
  if◌then◌else◌, ◌==◌, arith, length, length-append, length-take, take,
}
use popu_gate.Model.Upstream.{Upstream, UpstreamType, direct, socks5, socks4, shadowsocks, other}
use popu_gate.UpstreamStore.Validate.{backwards, name_ok}
use popu_gate.UpstreamNames.Text.{
  dash, replace_dashes, has_double, collapse_rounds, collapse_dashes, trim_left_dashes, trim_dashes,
}
use popu_gate.UpstreamNames.Defs.{
  bulk_name_prefix, bulk_name_host_port, sanitize_host_segment, hex8, upstream_identity_hash,
  host_in, name_of, generate_bulk_upstream_name,
}
use popu_gate.UpstreamNames.Bounds.{
  length-trim_dashes, length-collapse_dashes, has_double-trim_dashes, has_double-collapse_dashes,
}

-- Some byte of the text is no dash.
unfoldable has_plain : Str → Bool
has_plain [] = false
has_plain (x ∷ s) = if x == dash then has_plain s else true

has_plain-replace_dashes : (s : Str) → has_plain (replace_dashes s) ≡ has_plain s
unfolding has_plain replace_dashes
has_plain-replace_dashes [] = refl
has_plain-replace_dashes (x ∷ []) = refl
has_plain-replace_dashes (x ∷ y ∷ s) =
    ground (arith, has_plain-replace_dashes s, has_plain-replace_dashes (y ∷ s))

has_plain-collapse_rounds : (n : ℕ) (s : Str) → has_plain (collapse_rounds n s) ≡ has_plain s
unfolding collapse_rounds
has_plain-collapse_rounds zero s = refl
has_plain-collapse_rounds (suc n) s =
    ground (arith, has_plain-collapse_rounds n (replace_dashes s), has_plain-replace_dashes s)

has_plain-trim_left_dashes : (s : Str) → has_plain (trim_left_dashes s) ≡ has_plain s
unfolding has_plain trim_left_dashes
has_plain-trim_left_dashes [] = refl
has_plain-trim_left_dashes (x ∷ s) = ground (arith, has_plain-trim_left_dashes s)

has_plain-backwards : (s acc : Str) → has_plain (backwards s acc) ≡ (has_plain s || has_plain acc)
unfolding has_plain backwards
has_plain-backwards [] acc = refl
has_plain-backwards (x ∷ s) acc = ground (arith, has_plain-backwards s (x ∷ acc))

has_plain-trim_dashes : (s : Str) → has_plain s ≡ true → has_plain (trim_dashes s) ≡ true
unfolding trim_dashes has_plain
has_plain-trim_dashes s h = ground (
  arith,
  has_plain-trim_left_dashes s,
  has_plain-backwards (trim_left_dashes s) [],
  has_plain-trim_left_dashes (backwards (trim_left_dashes s) []),
  has_plain-backwards (trim_left_dashes (backwards (trim_left_dashes s) [])) [],
)

plain_not_empty : (s : Str) → has_plain s ≡ true → str_eq s [] ≡ false
unfolding has_plain str_eq
plain_not_empty [] h = cc
plain_not_empty (x ∷ s) h = refl

length-host_in : (n : ℕ) (host : Str) → length (host_in n host) ≤ 32 - n
length-host_in n host =
    omega (arith, length-trim_dashes (take (32 - n) host), length-take (32 - n) host)

length-bulk_name_prefix : (k : UpstreamType) → length (bulk_name_prefix k) ≤ 3
length-bulk_name_prefix direct = omega arith
length-bulk_name_prefix socks5 = omega arith
length-bulk_name_prefix socks4 = omega arith
length-bulk_name_prefix shadowsocks = omega arith
length-bulk_name_prefix (other t) = omega arith

prefix_plain : (k : UpstreamType) (s : Str) → has_plain (bulk_name_prefix k ++ s) ≡ true
unfolding has_plain
prefix_plain direct s = refl
prefix_plain socks5 s = refl
prefix_plain socks4 s = refl
prefix_plain shadowsocks s = refl
prefix_plain (other t) s = refl

length-upstream_identity_hash : (u : Upstream) → length (upstream_identity_hash u) ≡ 8
unfolding upstream_identity_hash hex8
length-upstream_identity_hash u = refl

-- The segments and their three dashes.
length-segments :
    (prefix host port hash : Str)
    → length prefix ≤ 3
    → length port ≤ 18
    → length hash ≡ 8
    → length (
        prefix
        ++ dash
          ∷ (host_in (length prefix + 3 + length port + length hash) host
              ++ dash ∷ (port ++ dash ∷ hash)))
      ≤ 32
length-segments prefix host port hash a b c =
    let cut = host_in (length prefix + 3 + length port + length hash) host in
    omega (
      arith,
      length-append prefix (dash ∷ (cut ++ dash ∷ (port ++ dash ∷ hash))),
      length-append cut (dash ∷ (port ++ dash ∷ hash)),
      length-append port (dash ∷ hash),
      length-host_in (length prefix + 3 + length port + length hash) host,
      a,
      b,
      c,
    )

length-name_of :
    (prefix host port hash : Str)
    → length prefix ≤ 3
    → length port ≤ 18
    → length hash ≡ 8
    → length (name_of prefix host port hash) ≤ 32
unfolding name_of
length-name_of prefix host port hash a b c =
    let cut = host_in (length prefix + 3 + length port + length hash) host in
    let whole = prefix ++ dash ∷ (cut ++ dash ∷ (port ++ dash ∷ hash)) in
    omega (
      arith,
      length-trim_dashes (collapse_dashes whole),
      length-collapse_dashes whole,
      length-segments prefix host port hash a b c,
    )

has_double-name_of :
    (prefix host port hash : Str) → has_double (name_of prefix host port hash) ≡ false
unfolding name_of
has_double-name_of prefix host port hash = has_double-trim_dashes _ (has_double-collapse_dashes _)

has_plain-name_of :
    (k : UpstreamType) (host port hash : Str)
    → has_plain (name_of (bulk_name_prefix k) host port hash) ≡ true
unfolding name_of collapse_dashes
has_plain-name_of k host port hash =
    has_plain-trim_dashes _ (has_plain-collapse_rounds _ _ ∙ prefix_plain k _)

-- For an upstream whose port text has at most 18 bytes, the generated name passes the check of
-- names in Validate, so it has 1 to 32 bytes, and no two neighbours in it are dashes.
pub generate_bulk_upstream_name-name_ok :
    (u : Upstream)
    → length (bulk_name_host_port u.kind u.address u.url).1 ≤ 18
    → (name_ok (generate_bulk_upstream_name u) ≡ true)
      × (has_double (generate_bulk_upstream_name u) ≡ false)
unfolding generate_bulk_upstream_name
generate_bulk_upstream_name-name_ok u h =
    let host = sanitize_host_segment (bulk_name_host_port u.kind u.address u.url).0 in
    let port = (bulk_name_host_port u.kind u.address u.url).1 in
    let hash = upstream_identity_hash u in
    (
      ground (
        arith,
        plain_not_empty (name_of (bulk_name_prefix u.kind) host port hash)
            (has_plain-name_of u.kind host port hash),
        length-name_of (bulk_name_prefix u.kind) host port hash (length-bulk_name_prefix u.kind) h
            (length-upstream_identity_hash u),
      ),
      has_double-name_of (bulk_name_prefix u.kind) host port hash,
    )
