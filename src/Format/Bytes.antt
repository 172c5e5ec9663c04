-- ===== src/Format/Bytes.antt =====
-- `FormatBytes` of pkg/fmtutil/bytes.go.
use popu_gate.Prelude.{
  ℕ, zero, suc, ◌*◌, ◌/◌, ◌%◌, ◌^◌, true, false, Str, codes, [], ◌∷◌, ◌++◌, Option, none, some,
  if◌then◌else◌, ltb,
}
use popu_gate.Format.Decimal.{decimal}

-- The loop, over `n`, `div` and `exp`; the product is one of 64 bits.
unfoldable pub scale : ℕ → ℕ → ℕ → ℕ → ℕ × (ℕ × ℕ)
scale zero n div exp = (n, (div, exp))
scale (suc fuel) n div exp = elim (ltb n 1024) [
  | true ↦ (n, (div, exp))
  | false ↦ scale fuel (n / 1024) (div * 1024 % 2 ^ 64) (suc exp)
]

-- The letter of "KMGTPE" at a position; behind its end the index panics.
unfoldable pub letter_at : ℕ → Str → Option ℕ
letter_at i [] = none
letter_at zero (c ∷ cs) = some c
letter_at (suc i) (c ∷ cs) = letter_at i cs

abbrev pub with_letter : Str → Option ℕ → Option Str
with_letter number none = none
with_letter number (some c) = some (number ++ b' ' ∷ c ∷ b'B' ∷ [])

-- The text of %.1f of a quotient of float64.
module _ (quotient : ℕ → ℕ → Str) where
  abbrev pub with_unit : ℕ → ℕ × (ℕ × ℕ) → Option Str
  with_unit b (n, (div, exp)) = with_letter (quotient b div) (letter_at exp (codes "KMGTPE"))

  -- `FormatBytes`, none for a panic.
  unfoldable pub format_bytes : ℕ → Option Str
  unfolding scale letter_at decimal
  format_bytes b =
      if ltb b 1024 then some (decimal b ++ codes " B") else with_unit b (scale 6 (b / 1024) 1024 0)
