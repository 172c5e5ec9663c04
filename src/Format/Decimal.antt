-- ===== src/Format/Decimal.antt =====
-- `%d` of fmt and `strconv.Itoa`, and `%v` of a Boolean.
use popu_gate.Prelude.{
  ℕ, zero, suc, ◌+◌, ◌/◌, ◌%◌, ℤ, pos, negsuc, Bool, true, false, Str, codes, [], ◌∷◌, ◌++◌, ltb,
}

-- The digits of a number below the fuel.
unfoldable pub digits : ℕ → ℕ → Str
digits zero n = []
digits (suc fuel) n = elim (ltb n 10) [
  | true ↦ (b'0' + n) ∷ []
  | false ↦ digits fuel (n / 10) ++ (b'0' + n % 10) ∷ []
]

unfoldable pub decimal : ℕ → Str
unfolding digits
decimal n = digits (suc n) n

-- `%d`
unfoldable pub format_int : ℤ → Str
unfolding decimal
format_int (pos n) = decimal n
format_int (negsuc n) = b'-' ∷ decimal (suc n)

-- `%v`
unfoldable pub format_bool : Bool → Str
format_bool true = codes "true"
format_bool false = codes "false"
