-- ===== src/Telemt/Defs.antt =====
-- pkg/telemt/secret.go, with the parts of encoding/hex that it calls.
use popu_gate.Prelude.{
  ℕ, ◌+◌, ◌-◌, ◌/◌, ◌%◌, ◌<◌, Bool, true, ◌&&◌, ◌||◌, Str, codes, List, [], ◌∷◌, ◌++◌,
  if◌then◌else◌, ltb, leb, ◌==◌, length,
}
use popu_gate.Sys.{M, random_bytes, pure, ◌>>=◌}

-- The size of the buffer that `rand.Read` fills.
abbrev pub bytes_size : ℕ
bytes_size = 16

abbrev pub IsByte : ℕ → Type 0
IsByte b = b < 256

-- "0123456789abcdef"[d]
unfoldable pub hex_digit : ℕ → ℕ
hex_digit d = if ltb d 10 then b'0' + d else b'a' + (d - 10)

-- `hex.EncodeToString`
unfoldable pub hex_encode : List ℕ → Str
unfolding hex_digit
hex_encode [] = []
hex_encode (b ∷ bs) = hex_digit (b / 16) ∷ hex_digit (b % 16) ∷ hex_encode bs

unfoldable pub is_hex : ℕ → Bool
is_hex c = leb b'0' c && leb c b'9' || leb b'a' c && leb c b'f' || leb b'A' c && leb c b'F'

unfoldable pub all_hex : Str → Bool
all_hex [] = true
all_hex (c ∷ cs) = is_hex c && all_hex cs

-- `ValidateSecretKey`: `hex.DecodeString` of an even number of bytes fails only at a byte that is
-- no hex digit.
unfoldable pub validate_secret_key : Str → Bool
unfolding is_hex all_hex
validate_secret_key key = if length key == 32 then all_hex key else Bool.false

-- `GenerateSecret`
unfoldable pub generate_secret : M Str
unfolding random_bytes hex_encode
generate_secret = do b ← random_bytes; pure (hex_encode b)

-- `DomainToHex`
unfoldable pub domain_to_hex : Str → Str
domain_to_hex domain = hex_encode domain

-- `BuildFakeTLSSecret`
unfoldable pub build_fake_tls_secret : Str → Str → Bool → Str
unfolding domain_to_hex
build_fake_tls_secret raw domain masking =
    if masking then codes "ee" ++ (raw ++ domain_to_hex domain) else codes "dd" ++ raw
