-- ===== src/Telemt/Keys.antt =====
-- The keys that `GenerateSecret` makes, and the secrets that clients are given.
use popu_gate.Prelude.{ℕ, ◌*◌, ◌/◌, ◌%◌, ◌<◌, ◌≡◌, refl, true, List, [], ◌∷◌, arith, length, All}
use popu_gate.Telemt.Defs.{
  bytes_size, IsByte, hex_digit, hex_encode, is_hex, all_hex, validate_secret_key,
}

is_hex-hex_digit : (d : ℕ) → d < 16 → is_hex (hex_digit d) ≡ true
unfolding is_hex hex_digit
is_hex-hex_digit d h = ground arith

all_hex-hex_encode : (bs : List ℕ) → All IsByte bs → all_hex (hex_encode bs) ≡ true
unfolding all_hex hex_encode
all_hex-hex_encode [] h = refl
all_hex-hex_encode (b ∷ bs) h = ground (
  arith,
  is_hex-hex_digit (b / 16) (omega arith),
  is_hex-hex_digit (b % 16) (omega arith),
  all_hex-hex_encode bs h.1,
)

pub length-hex_encode : (bs : List ℕ) → length (hex_encode bs) ≡ 2 * length bs
unfolding hex_encode
length-hex_encode [] = refl
length-hex_encode (b ∷ bs) = omega (arith, length-hex_encode bs)

-- The hex form of sixteen random bytes passes `ValidateSecretKey`.
pub validate_secret_key-hex_encode :
    (bs : List ℕ)
    → All IsByte bs
    → length bs ≡ bytes_size
    → validate_secret_key (hex_encode bs) ≡ true
unfolding validate_secret_key
validate_secret_key-hex_encode bs h n =
    ground (arith, length-hex_encode bs, all_hex-hex_encode bs h)
