-- ===== src/Format/Units.antt =====
-- The unit that `FormatBytes` finds.
use popu_gate.Prelude.{
  ℕ, zero, suc, ◌+◌, ◌*◌, ◌/◌, ◌%◌, ◌^◌, ◌<◌, ◌≤◌, ◌≡◌, refl, ap, ◌∙◌, Bool, true, false,
  Bool-cases, inl, inr, Str, codes, [], ◌∷◌, ◌++◌, some, if◌then◌else◌, ltb, arith, ltb→lt,
}
use native.Mathlib.Nat.{mul-le-mul_right}
use popu_gate.Format.Decimal.{decimal}
use popu_gate.Format.Bytes.{scale, letter_at, with_unit, format_bytes}

-- What a round keeps of the number, the rest, the divisor and the exponent.
record Round (b fuel n div exp : ℕ) : Type 0 where
  lower : n * div ≤ b
  upper : b < suc n * div
  positive : 1 ≤ n
  room : n < 16 * 1024 ^ fuel
  power : div ≡ 1024 ^ suc exp
  rounds : fuel + exp ≡ 5

-- What the loop finds.
record Found (b : ℕ) (r : ℕ × (ℕ × ℕ)) : Type 0 where
  fits : r.1.0 ≤ b
  below : b < 1024 * r.1.0
  power : r.1.0 ≡ 1024 ^ suc r.1.1
  letter : r.1.1 < 6

mul_le : (a b c : ℕ) → a ≤ b → a * c ≤ b * c
mul_le a b c h = mul-le-mul_right c h

Round-Found : (b f n div exp : ℕ) → n < 1024 → Round b f n div exp → Found b (n, (div, exp))
Round-Found b f n div exp h r = record {
  fits = omega (arith, r.lower, mul_le 1 n div r.positive);
  below = omega (arith, r.upper, mul_le (suc n) 1024 div h);
  power = r.power;
  letter = omega (arith, r.rounds);
}

small_mod : (x b : ℕ) → x ≤ b → b < 2 ^ 64 → x % 2 ^ 64 ≡ x
small_mod x b h k = omega arith

Round-step :
    (b f n div exp : ℕ)
    → b < 2 ^ 64
    → 1024 ≤ n
    → Round b (suc f) n div exp
    → Round b f (n / 1024) (div * 1024 % 2 ^ 64) (suc exp)
Round-step b f n div exp h k r =
    let fits : div * 1024 ≤ b = omega (arith, r.lower, mul_le 1024 n div k) in
    rw (small_mod (div * 1024) b fits h) (record {
      lower = omega (arith, r.lower, mul_le (n / 1024 * 1024) n div (omega arith));
      upper = omega (arith, r.upper, mul_le (suc n) (suc (n / 1024) * 1024) div (omega arith));
      positive = omega arith;
      room = omega (arith, r.room);
      power = omega (arith, r.power);
      rounds = omega (arith, r.rounds);
    })

not_below : (n : ℕ) → ltb n 1024 ≡ false → 1024 ≤ n
not_below n h = ground arith

below_not : (n : ℕ) → 1024 ≤ n → ltb n 1024 ≡ false
below_not n h = ground arith

below_unit : (n : ℕ) → n < 1024 → ltb n 1024 ≡ true
below_unit n h = ground arith

-- The branches of a round.
abbrev branch : ℕ → ℕ → ℕ → ℕ → Bool → ℕ × (ℕ × ℕ)
branch f n div exp true = (n, (div, exp))
branch f n div exp false = scale f (n / 1024) (div * 1024 % 2 ^ 64) (suc exp)

scale_stop : (f n div exp : ℕ) → n < 1024 → scale (suc f) n div exp ≡ (n, (div, exp))
unfolding scale
scale_stop f n div exp h = ap (branch f n div exp) (below_unit n h)

scale_on :
    (f n div exp : ℕ)
    → ltb n 1024 ≡ false
    → scale (suc f) n div exp ≡ scale f (n / 1024) (div * 1024 % 2 ^ 64) (suc exp)
unfolding scale
scale_on f n div exp h = ap (branch f n div exp) h

scale-Found :
    (b f n div exp : ℕ) → b < 2 ^ 64 → Round b f n div exp → Found b (scale (suc f) n div exp)
scale-Found b zero n div exp h r =
    let small : n < 1024 = omega (arith, r.room) in
    rw (scale_stop zero n div exp small) (Round-Found b zero n div exp small r)
scale-Found b (suc f) n div exp h r = elim (Bool-cases (ltb n 1024)) [
  | inl e ↦
      rw (scale_stop (suc f) n div exp (ltb→lt n 1024 e))
        (Round-Found b (suc f) n div exp (ltb→lt n 1024 e) r)
  | inr e ↦ rw (scale_on (suc f) n div exp e) (
      scale-Found b f (n / 1024) (div * 1024 % 2 ^ 64) (suc exp) h
        (Round-step b f n div exp h (not_below n e) r))
]

-- The letters of the units.
abbrev pub units : Str
units = codes "KMGTPE"

letter_of : (i : ℕ) → i < 6 → (c : ℕ) × (letter_at i units ≡ some c)
unfolding letter_at
letter_of zero h = (b'K', refl)
letter_of (suc zero) h = (b'M', refl)
letter_of (suc (suc zero)) h = (b'G', refl)
letter_of (suc (suc (suc zero))) h = (b'T', refl)
letter_of (suc (suc (suc (suc zero)))) h = (b'P', refl)
letter_of (suc (suc (suc (suc (suc zero))))) h = (b'E', refl)
letter_of (suc (suc (suc (suc (suc (suc i)))))) h = ground arith

-- The text has the unit of the count: its exponent, its letter, and the text.
pub record HasUnit (quotient : ℕ → ℕ → Str) (b : ℕ) : Type 0 where
  pub exponent : ℕ
  pub letter : ℕ
  pub named : letter_at exponent units ≡ some letter
  pub reached : 1024 ^ suc exponent ≤ b
  pub not_passed : b < 1024 ^ suc (suc exponent)
  pub shown :
      format_bytes quotient b ≡ some (quotient b (1024 ^ suc exponent) ++ b' ' ∷ letter ∷ b'B' ∷ [])

first-Round : (b : ℕ) → b < 2 ^ 64 → 1024 ≤ b → Round b 5 (b / 1024) 1024 0
first-Round b h k = record {
  lower = omega arith;
  upper = omega arith;
  positive = omega arith;
  room = omega arith;
  power = refl;
  rounds = refl;
}

with_unit_shown :
    (quotient : ℕ → ℕ → Str) (b c p : ℕ) (r : ℕ × (ℕ × ℕ))
    → letter_at r.1.1 units ≡ some c
    → r.1.0 ≡ p
    → with_unit quotient b r ≡ some (quotient b p ++ b' ' ∷ c ∷ b'B' ∷ [])
with_unit_shown quotient b c p r h e = rw (h, e) refl

format_big :
    (quotient : ℕ → ℕ → Str) (b : ℕ)
    → 1024 ≤ b
    → format_bytes quotient b ≡ with_unit quotient b (scale 6 (b / 1024) 1024 0)
unfolding format_bytes
format_big quotient b k =
    ap
      (λ (t : Bool).
        if t
        then some (decimal b ++ codes " B")
        else with_unit quotient b (scale 6 (b / 1024) 1024 0))
      (below_not b k)

Found-HasUnit :
    (quotient : ℕ → ℕ → Str) (b : ℕ) (r : ℕ × (ℕ × ℕ))
    → Found b r
    → format_bytes quotient b ≡ with_unit quotient b r
    → HasUnit quotient b
Found-HasUnit quotient b r found e =
    let at = letter_of r.1.1 found.letter in
    record {
      exponent = r.1.1;
      letter = at.0;
      named = at.1;
      reached = omega (arith, found.fits, found.power);
      not_passed = omega (arith, found.below, found.power);
      shown = e ∙ with_unit_shown quotient b at.0 (1024 ^ suc r.1.1) r at.1 found.power;
    }

-- A count of 64 bits from 1024 on is shown with its unit: the text is the quotient by a power of
-- 1024, which is at most the count while 1024 times it is above the count, and the letter of that
-- power. The index of the letter is never out of range, and the divisor never wraps around.
pub format_bytes-HasUnit :
    (quotient : ℕ → ℕ → Str) (b : ℕ) → b < 2 ^ 64 → 1024 ≤ b → HasUnit quotient b
format_bytes-HasUnit quotient b h k =
    Found-HasUnit quotient b (scale 6 (b / 1024) 1024 0)
      (scale-Found b 5 (b / 1024) 1024 0 h (first-Round b h k)) (format_big quotient b k)
