-- ===== src/Format/Read.antt =====
-- Reading a quoted text back by the rules of TOML for a basic string.
use popu_gate.Prelude.{
  ℕ, ◌≡◌, refl, ◌∙◌, ap, Bool, true, false, ◌||◌, Str, [], ◌∷◌, ◌++◌, Option, none, some, arith,
  Bool-cases, inl, inr, if◌then◌else◌, ltb, ◌==◌, All,
}
use mathlib.Core.List.{append_assoc}
use mathlib.Core.Path.{subst}
use popu_gate.Format.Quote.{
  quote, quote_loop, quote_piece, escape_rune, escape_control, is_printed, within,
}

-- The characters that the short escapes of TOML stand for.
abbrev pub escape_of : ℕ → Option ℕ
escape_of d =
    if d == b'"'
    then some b'"'
    else if d == b'\\'
    then some b'\\'
    else if d == b'b'
    then some 8
    else if d == b't'
    then some 9
    else if d == b'n'
    then some 10
    else if d == b'f'
    then some 12
    else if d == b'r'
    then some 13
    else none

abbrev pub push : Option ℕ → Option (Str × Str) → Option (Str × Str)
push none r = none
push (some c) none = none
push (some c) (some (s, rest)) = some (c ∷ s, rest)

-- A basic string behind its opening quotation mark: its text and what follows it. No control
-- character stands in it.
unfoldable pub read_text : Str → Option (Str × Str)
read_text [] = none
read_text (c ∷ []) = if c == b'"' then some ([], []) else none
read_text (c ∷ d ∷ s) =
    let plain = push (if ltb c 32 then none else some c) (read_text (d ∷ s)) in
    let escaped = push (escape_of d) (read_text s) in
    if c == b'"' then some ([], d ∷ s) else if c == b'\\' then escaped else plain

unfoldable pub read_string : Str → Option (Str × Str)
unfolding read_text
read_string [] = none
read_string (c ∷ s) = if c == b'"' then read_text s else none

-- A printable character of ASCII, or one that TOML has a short escape for.
abbrev pub is_plain_text : ℕ → Bool
is_plain_text c = within 0x20 0x7E c || (within 8 10 c || within 12 13 c)

read_text_plain :
    (c : ℕ) (t : Str)
    → within 0x20 0x7E c ≡ true
    → (c == b'"' || c == b'\\') ≡ false
    → read_text (c ∷ t) ≡ push (some c) (read_text t)
unfolding read_text
read_text_plain c [] h k = ground arith
read_text_plain c (d ∷ t) h k = ground arith

read_text_end : (rest : Str) → read_text (b'"' ∷ rest) ≡ some ([], rest)
unfolding read_text
read_text_end [] = refl
read_text_end (d ∷ rest) = refl

read_text_escape :
    (d c : ℕ) (t : Str)
    → escape_of d ≡ some c
    → read_text (b'\\' ∷ d ∷ t) ≡ push (some c) (read_text t)
unfolding read_text
read_text_escape d c t h = rw h refl

-- The escape of the character is read back.
abbrev ReadsControl : Str → ℕ → Type 0
ReadsControl t c = read_text (escape_control c ++ t) ≡ push (some c) (read_text t)

same_number : (c n : ℕ) → (c == n) ≡ true → n ≡ c
same_number c n h = ground arith

no_control :
    (c : ℕ)
    → (c == 8) ≡ false
    → (c == 9) ≡ false
    → (c == 10) ≡ false
    → (c == 12) ≡ false
    → (within 8 10 c || within 12 13 c) ≡ true
    → 13 ≡ c
no_control c a b d e h = ground arith

control_piece : (c : ℕ) (t : Str) → (within 8 10 c || within 12 13 c) ≡ true → ReadsControl t c
unfolding escape_control
control_piece c t h = elim (Bool-cases (c == 8)) [
  | inl e ↦ subst (ReadsControl t) (same_number c 8 e) (read_text_escape b'b' 8 t refl)
  | inr e8 ↦ elim (Bool-cases (c == 9)) [
    | inl e ↦ subst (ReadsControl t) (same_number c 9 e) (read_text_escape b't' 9 t refl)
    | inr e9 ↦ elim (Bool-cases (c == 10)) [
      | inl e ↦ subst (ReadsControl t) (same_number c 10 e) (read_text_escape b'n' 10 t refl)
      | inr e10 ↦ elim (Bool-cases (c == 12)) [
        | inl e ↦ subst (ReadsControl t) (same_number c 12 e) (read_text_escape b'f' 12 t refl)
        | inr e12 ↦
            subst (ReadsControl t) (no_control c e8 e9 e10 e12 h) (read_text_escape b'r' 13 t refl)
      ]
    ]
  ]
]

escape_of_self : (c : ℕ) → (c == b'"' || c == b'\\') ≡ true → escape_of c ≡ some c
escape_of_self c h = ground arith

narrow : (c : ℕ) → is_plain_text c ≡ true → ltb c 0x80 ≡ true
narrow c h = ground arith

other_half : (a b : Bool) → (a || b) ≡ true → a ≡ false → b ≡ true
other_half a b h k = ground arith

module _ (is_print : ℕ → Bool) where
  is_printed-narrow : (c : ℕ) → ltb c 0x80 ≡ true → is_printed is_print c ≡ within 0x20 0x7E c
  unfolding is_printed
  is_printed-narrow c h = rw h refl

  read_escaped :
      (c : ℕ) (t : Str)
      → is_plain_text c ≡ true
      → read_text (escape_rune is_print c (c ∷ []) ++ t) ≡ push (some c) (read_text t)
  unfolding escape_rune
  read_escaped c t h = elim (Bool-cases (c == b'"' || c == b'\\')) [
    | inl e ↦ rw e (read_text_escape c c t (escape_of_self c e))
    | inr e ↦
        rw (e, is_printed-narrow c (narrow c h))
          (elim (Bool-cases (within 0x20 0x7E c)) [
            | inl p ↦ rw p (read_text_plain c t p e)
            | inr p ↦ rw p (control_piece c t (other_half (within 0x20 0x7E c) _ h p))
          ])
  ]

  quote_piece-narrow :
      (c : ℕ) (s : Str)
      → is_plain_text c ≡ true
      → quote_piece is_print c s ≡ (escape_rune is_print c (c ∷ []), 0)
  unfolding quote_piece
  quote_piece-narrow c s h = rw (narrow c h) refl

  read_loop :
      (s rest : Str)
      → All (λ c. is_plain_text c ≡ true) s
      → read_text (quote_loop is_print s 0 ++ b'"' ∷ rest) ≡ some (s, rest)
  unfolding quote_loop
  read_loop [] rest a = read_text_end rest
  read_loop (c ∷ s) rest a =
      rw
        (
          quote_piece-narrow c s a.0,
          append_assoc (escape_rune is_print c (c ∷ [])) (quote_loop is_print s 0) (b'"' ∷ rest),
          read_escaped c (quote_loop is_print s 0 ++ b'"' ∷ rest) a.0,
          read_loop s rest a.1,
        )
        refl

  -- A text of printable ASCII characters, tabs, line feeds and the other characters that TOML has a
  -- short escape for is read back from what %q writes for it, whatever follows.
  pub read_string-quote :
      (s rest : Str)
      → All (λ c. is_plain_text c ≡ true) s
      → read_string (quote is_print s ++ rest) ≡ some (s, rest)
  unfolding quote read_string
  read_string-quote s rest a =
      ap read_text (append_assoc (quote_loop is_print s 0) (b'"' ∷ []) rest) ∙ read_loop s rest a
