-- ===== src/Format/Clean.antt =====
-- Text without a line feed, such as a line of a file: what the verbs write is such text.
use popu_gate.Prelude.{
  ℕ, zero, suc, ◌/◌, ◌%◌, ◌^◌, ◌≡◌, refl, ℤ, pos, negsuc, Bool, true, false, Str, [], ◌∷◌, ◌++◌,
  some, ◌==◌, ltb, arith, Bool-cases, Option-cases, ◌||◌, inl, inr,
}
use popu_gate.UpstreamNames.Text.{has_byte}
use popu_gate.Telemt.Defs.{hex_digit}
use popu_gate.Format.Decimal.{digits, decimal, format_int, format_bool}
use popu_gate.Format.Quote.{
  wide_piece, quote, quote_loop, quote_piece, escape_rune, escape_control, hex_places, decode_rune,
  is_printed,
}

-- The text has no line feed.
abbrev pub Clean : Str → Type 0
Clean s = has_byte 10 s ≡ false

pub has_byte-append :
    (c : ℕ) (s t : Str) → has_byte c s ≡ false → has_byte c t ≡ false → has_byte c (s ++ t) ≡ false
unfolding has_byte
has_byte-append c [] t h k = k
has_byte-append c (x ∷ s) t h k = ground (arith, has_byte-append c s t)

digits-Clean : (fuel n : ℕ) → Clean (digits fuel n)
unfolding digits has_byte
digits-Clean zero n = refl
digits-Clean (suc fuel) n = elim (Bool-cases (ltb n 10)) [
  | inl e ↦ rw (e, digits) (ground arith)
  | inr e ↦
      rw (e, digits)
        (has_byte-append 10 (digits fuel (n / 10)) _ (digits-Clean fuel (n / 10)) (ground arith))
]

pub format_int-Clean : (z : ℤ) → Clean (format_int z)
unfolding format_int decimal has_byte
format_int-Clean (pos n) = digits-Clean (suc n) n
format_int-Clean (negsuc n) = digits-Clean (suc (suc n)) (suc n)

pub format_bool-Clean : (b : Bool) → Clean (format_bool b)
unfolding format_bool has_byte
format_bool-Clean true = refl
format_bool-Clean false = refl

hex_digit-Clean : (d : ℕ) → Clean (hex_digit d ∷ [])
unfolding has_byte hex_digit
hex_digit-Clean d = ground arith

hex_places-Clean : (k r : ℕ) → Clean (hex_places k r)
unfolding hex_places has_byte
hex_places-Clean zero r = refl
hex_places-Clean (suc k) r =
    has_byte-append 10 (hex_digit (r / 16 ^ k % 16) ∷ []) (hex_places k r)
      (hex_digit-Clean (r / 16 ^ k % 16)) (hex_places-Clean k r)

escape_control-Clean : (r : ℕ) → Clean (escape_control r)
unfolding escape_control has_byte
escape_control-Clean r =
    ground (arith, hex_places-Clean 2 r, hex_places-Clean 4 r, hex_places-Clean 8 r)

decode_rune-Clean :
    (b : ℕ) (s : Str) (r : ℕ) (tail : Str) → decode_rune b s ≡ some (r, tail) → Clean tail
unfolding decode_rune has_byte
decode_rune-Clean b [] r tail h = ground arith
decode_rune-Clean b (c ∷ []) r tail h = ground arith
decode_rune-Clean b (c ∷ d ∷ []) r tail h = ground arith
decode_rune-Clean b (c ∷ d ∷ e ∷ s) r tail h = ground arith

module _ (is_print : ℕ → Bool) where
  escape_wide-Clean : (r : ℕ) (bytes : Str) → Clean bytes → Clean (escape_rune is_print r bytes)
  unfolding escape_rune has_byte
  escape_wide-Clean r bytes h = ground (arith, escape_control-Clean r)

  printed_narrow : (b : ℕ) → ltb b 0x80 ≡ true → is_printed is_print b ≡ true → Clean (b ∷ [])
  unfolding is_printed has_byte
  printed_narrow b h k = ground arith

  quoted-Clean : (r : ℕ) → ((r == b'"') || (r == b'\\')) ≡ true → Clean (b'\\' ∷ r ∷ [])
  unfolding has_byte
  quoted-Clean r h = ground arith

  escape_narrow-Clean : (b : ℕ) → ltb b 0x80 ≡ true → Clean (escape_rune is_print b (b ∷ []))
  unfolding escape_rune
  escape_narrow-Clean b h = elim (Bool-cases (b == b'"' || b == b'\\')) [
    | inl e ↦ rw e (quoted-Clean b e)
    | inr e ↦ rw e (elim (Bool-cases (is_printed is_print b)) [
      | inl p ↦ rw p (printed_narrow b h p)
      | inr p ↦ rw p (escape_control-Clean b)
    ])
  ]

  wide_piece-Clean :
      (b : ℕ) (s : Str) → ltb b 0x80 ≡ false → Clean (wide_piece is_print b (decode_rune b s)).0
  unfolding has_byte
  wide_piece-Clean b s h = elim (Option-cases (decode_rune b s)) [
    | inl e ↦ rw e (ground (arith, hex_places-Clean 2 b))
    | inr ((r, tail), e) ↦
        rw e (escape_wide-Clean r (b ∷ tail) (ground (arith, decode_rune-Clean b s r tail e)))
  ]

  quote_piece-Clean : (b : ℕ) (s : Str) → Clean (quote_piece is_print b s).0
  unfolding quote_piece
  quote_piece-Clean b s = elim (Bool-cases (ltb b 0x80)) [
    | inl e ↦ rw e (escape_narrow-Clean b e)
    | inr e ↦ rw e (wide_piece-Clean b s e)
  ]

  quote_loop-Clean : (s : Str) (skip : ℕ) → Clean (quote_loop is_print s skip)
  unfolding quote_loop has_byte
  quote_loop-Clean [] skip = refl
  quote_loop-Clean (b ∷ s) (suc skip) = quote_loop-Clean s skip
  quote_loop-Clean (b ∷ s) zero =
      has_byte-append 10 (quote_piece is_print b s).0 _ (quote_piece-Clean b s)
        (quote_loop-Clean s (quote_piece is_print b s).1)

  pub quote-Clean : (s : Str) → Clean (quote is_print s)
  unfolding quote has_byte
  quote-Clean s = has_byte-append 10 (quote_loop is_print s 0) _ (quote_loop-Clean s 0) refl
