-- ===== src/Format/Quote.antt =====
-- `%q` of fmt, which is `strconv.Quote`, and the decoding of UTF-8 that it calls.
use popu_gate.Prelude.{
  ℕ, zero, suc, ◌+◌, ◌-◌, ◌*◌, ◌/◌, ◌%◌, ◌^◌, Bool, ◌&&◌, ◌||◌, Str, codes, [], ◌∷◌, ◌++◌, Option,
  none, some, if◌then◌else◌, ltb, leb, ◌==◌, length,
}
use popu_gate.Telemt.Defs.{hex_digit}

abbrev pub within : ℕ → ℕ → ℕ → Bool
within lo hi c = leb lo c && leb c hi

-- The low six bits of a continuation byte.
abbrev pub six_bits : ℕ → ℕ
six_bits c = c - 128

abbrev pub decode_two : ℕ → Str → Option (ℕ × Str)
decode_two b [] = none
decode_two b (c ∷ s) =
    if within 0x80 0xBF c then some ((b - 0xC0) * 64 + six_bits c, c ∷ []) else none

abbrev pub decode_three : ℕ → Str → Option (ℕ × Str)
decode_three b [] = none
decode_three b (c ∷ []) = none
decode_three b (c ∷ d ∷ s) =
    if within (if b == 0xE0 then 0xA0 else 0x80) (if b == 0xED then 0x9F else 0xBF) c
      && within 0x80 0xBF d
    then some ((b - 0xE0) * 4096 + six_bits c * 64 + six_bits d, c ∷ d ∷ [])
    else none

abbrev pub decode_four : ℕ → Str → Option (ℕ × Str)
decode_four b [] = none
decode_four b (c ∷ []) = none
decode_four b (c ∷ d ∷ []) = none
decode_four b (c ∷ d ∷ e ∷ s) =
    if within (if b == 0xF0 then 0x90 else 0x80) (if b == 0xF4 then 0x8F else 0xBF) c
      && (within 0x80 0xBF d && within 0x80 0xBF e)
    then some
        ((b - 0xF0) * 262144 + six_bits c * 4096 + six_bits d * 64 + six_bits e, c ∷ d ∷ e ∷ [])
    else none

-- `utf8.DecodeRuneInString` at a first byte of 0x80 or more: the rune and the bytes that continue
-- it, or none where the encoding is not valid.
unfoldable pub decode_rune : ℕ → Str → Option (ℕ × Str)
decode_rune b s =
    if within 0xC2 0xDF b
    then decode_two b s
    else if within 0xE0 0xEF b
    then decode_three b s
    else if within 0xF0 0xF4 b
    then decode_four b s
    else none

-- The last `k` hexadecimal digits of a number.
unfoldable pub hex_places : ℕ → ℕ → Str
hex_places zero r = []
hex_places (suc k) r = hex_digit (r / 16 ^ k % 16) ∷ hex_places k r

-- The cases of `appendEscapedRune` for a rune that is not printed.
unfoldable pub escape_control : ℕ → Str
escape_control r =
    if r == 7
    then codes "\\a"
    else if r == 8
    then codes "\\b"
    else if r == 12
    then codes "\\f"
    else if r == 10
    then codes "\\n"
    else if r == 13
    then codes "\\r"
    else if r == 9
    then codes "\\t"
    else if r == 11
    then codes "\\v"
    else if ltb r b' ' || r == 0x7F
    then codes "\\x" ++ hex_places 2 r
    else if ltb r 0x10000
    then codes "\\u" ++ hex_places 4 r
    else codes "\\U" ++ hex_places 8 r

-- `unicode.IsPrint` above ASCII is a table of the Go library: a parameter.
module _ (is_print : ℕ → Bool) where
  unfoldable pub is_printed : ℕ → Bool
  is_printed r = if ltb r 0x80 then within 0x20 0x7E r else is_print r

  -- `appendEscapedRune` for a rune and its encoding.
  unfoldable pub escape_rune : ℕ → Str → Str
  escape_rune r bytes =
      if r == b'"' || r == b'\\'
      then b'\\' ∷ r ∷ []
      else if is_printed r
      then bytes
      else escape_control r

  abbrev pub wide_piece : ℕ → Option (ℕ × Str) → Str × ℕ
  wide_piece b none = (codes "\\x" ++ hex_places 2 b, 0)
  wide_piece b (some (r, tail)) = (escape_rune r (b ∷ tail), length tail)

  -- One round of `appendQuotedWith`: what it writes, and how many bytes follow the first one.
  unfoldable pub quote_piece : ℕ → Str → Str × ℕ
  quote_piece b s =
      if ltb b 0x80 then (escape_rune b (b ∷ []), 0) else wide_piece b (decode_rune b s)

  -- The loop, where the first bytes belong to the rune that is written already.
  unfoldable pub quote_loop : Str → ℕ → Str
  quote_loop [] skip = []
  quote_loop (b ∷ s) (suc skip) = quote_loop s skip
  quote_loop (b ∷ s) zero = (quote_piece b s).0 ++ quote_loop s (quote_piece b s).1

  unfoldable pub quote : Str → Str
  unfolding quote_loop
  quote s = b'"' ∷ (quote_loop s 0 ++ b'"' ∷ [])
