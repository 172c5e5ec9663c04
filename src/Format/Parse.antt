-- ===== src/Format/Parse.antt =====
-- The digits of a decimal text, read back as `strconv.ParseInt` reads them.
use popu_gate.Prelude.{
  ℕ, zero, suc, ◌+◌, ◌*◌, ◌/◌, ◌%◌, ◌<◌, ◌≡◌, refl, sym, ap, ◌∙◌, Bool, true, false, ◌&&◌, Str, [],
  ◌∷◌, ◌++◌, some, ltb, leb, arith, Bool-cases, inl, inr,
}
use mathlib.Core.List.{append_assoc, append-nil}
use popu_gate.SecretStore.Expiry.{parse_digits}
use popu_gate.Format.Decimal.{digits, decimal}

parse_digits_step :
    (m d k : ℕ) (rest : Str)
    → d < 10
    → m * 10 + d ≡ k
    → parse_digits m ((b'0' + d) ∷ rest) ≡ parse_digits k rest
unfolding parse_digits
parse_digits_step m d k rest h e = ground arith

parse_digits-digits :
    (fuel n : ℕ) (rest : Str)
    → n < fuel
    → parse_digits 0 (digits fuel n ++ rest) ≡ parse_digits n rest
unfolding digits
parse_digits-digits zero n rest h = elim h [ ]
parse_digits-digits (suc fuel) n rest h = elim (Bool-cases (ltb n 10)) [
  | inl e ↦ rw (e, digits) (parse_digits_step 0 n n rest (ground arith) (omega arith))
  | inr e ↦
      rw (e, digits, append_assoc (digits fuel (n / 10)) ((b'0' + n % 10) ∷ []) rest)
        (parse_digits-digits fuel (n / 10) ((b'0' + n % 10) ∷ rest) (ground arith)
          ∙ parse_digits_step (n / 10) (n % 10) n rest (omega arith) (omega arith))
]

unfoldable pub starts_digit : Str → Bool
starts_digit [] = false
starts_digit (c ∷ s) = leb b'0' c && leb c b'9'

starts_digit-append : (s t : Str) → starts_digit s ≡ true → starts_digit (s ++ t) ≡ true
unfolding starts_digit
starts_digit-append [] t h = ground arith
starts_digit-append (c ∷ s) t h = h

starts_digit-digits : (fuel n : ℕ) → n < fuel → starts_digit (digits fuel n) ≡ true
unfolding digits starts_digit
starts_digit-digits zero n h = elim h [ ]
starts_digit-digits (suc fuel) n h = elim (Bool-cases (ltb n 10)) [
  | inl e ↦ rw (e, digits) (ground arith)
  | inr e ↦
      rw (e, digits)
        (starts_digit-append (digits fuel (n / 10)) _
          (starts_digit-digits fuel (n / 10) (ground arith)))
]

pub starts_digit-decimal : (n : ℕ) → starts_digit (decimal n) ≡ true
unfolding decimal
starts_digit-decimal n = starts_digit-digits (suc n) n (omega arith)

parse_digits-nil : (n : ℕ) → parse_digits n [] ≡ some n
unfolding parse_digits
parse_digits-nil n = refl

pub parse_digits-decimal : (n : ℕ) → parse_digits 0 (decimal n) ≡ some n
unfolding decimal
parse_digits-decimal n =
    ap (parse_digits 0) (sym (append-nil (digits (suc n) n)))
    ∙ (parse_digits-digits (suc n) n [] (omega arith) ∙ parse_digits-nil n)
