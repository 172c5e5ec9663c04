-- ===== src/Config/Headers/Entries.antt =====
-- The lines of one entry, by the verb of its value.
use popu_gate.Prelude.{
  ℕ, ◌≡◌, refl, ℤ, Bool, true, false, Str, codes, List, [], ◌∷◌, ◌++◌, Option, none, some,
}
use popu_gate.UpstreamNames.Text.{has_byte}
use popu_gate.Format.Decimal.{format_int, format_bool}
use popu_gate.Format.Quote.{quote}
use popu_gate.Format.Clean.{
  Clean, has_byte-append, quote-Clean, format_int-Clean, format_bool-Clean,
}
use popu_gate.Config.Lines.{entry, optional, text_entry, format_string_array, join_quoted}
use popu_gate.Config.Server.{quoted_int}
use popu_gate.Config.Render.{pointed}
use popu_gate.Config.Headers.Rules.{Renders, no_lines, plain_line, entry_line, is_header}

pub blank_line : {ls hs : List Str} → Renders ls hs → Renders ([] ∷ ls) hs
unfolding has_byte
blank_line r = plain_line [] refl refl r

pub last_blank : Renders ([] ∷ []) []
last_blank = blank_line no_lines

pub quoted_int-Clean : (z : ℤ) → Clean (quoted_int z)
unfolding has_byte
quoted_int-Clean z = has_byte-append 10 (format_int z) (codes "\"") (format_int-Clean z) refl

module _ (is_print : ℕ → Bool) where
  join_quoted-Clean : (s : Str) (arr : List Str) → Clean (join_quoted is_print s arr)
  unfolding join_quoted has_byte
  join_quoted-Clean s [] = quote-Clean is_print s
  join_quoted-Clean s (t ∷ arr) =
      has_byte-append 10 (quote is_print s) (codes ", " ++ join_quoted is_print t arr)
        (quote-Clean is_print s) (join_quoted-Clean t arr)

  pub format_string_array-Clean : (arr : List Str) → Clean (format_string_array is_print arr)
  unfolding format_string_array has_byte
  format_string_array-Clean [] = refl
  format_string_array-Clean (s ∷ arr) =
      has_byte-append 10 (join_quoted is_print s arr) (codes "]") (join_quoted-Clean s arr) refl

-- A key that begins no header and has no line feed.
pub record Plain (key : Str) : Type 0 where
  pub clean : Clean key
  pub plain : is_header key ≡ false

-- Every key that the program spells out is plain.
abbrev pub spelled : {key : Str} → Clean key → is_header key ≡ false → Plain key
spelled c h = record { clean = c; plain = h }

module _ {key : Str} (k : Plain key) {ls hs : List Str} where
  pub int_line : (z : ℤ) → Renders ls hs → Renders (entry key (format_int z) ∷ ls) hs
  int_line z r = entry_line key (format_int z) k.clean k.plain (format_int-Clean z) r

  pub flag_line : (b : Bool) → Renders ls hs → Renders (entry key (format_bool b) ∷ ls) hs
  flag_line b r = entry_line key (format_bool b) k.clean k.plain (format_bool-Clean b) r

  -- The entry under a condition.
  pub entry_under :
      (b : Bool) (value : Str)
      → Clean value
      → Renders ls hs
      → Renders (optional b (entry key value) ++ ls) hs
  entry_under true value v r = entry_line key value k.clean k.plain v r
  entry_under false value v r = r

  pub optional_int :
      (b : Bool) (z : ℤ) → Renders ls hs → Renders (optional b (entry key (format_int z)) ++ ls) hs
  optional_int b z r = entry_under b (format_int z) (format_int-Clean z) r

  pub pointed_line : (o : Option Bool) → Renders ls hs → Renders (pointed key o ++ ls) hs
  pointed_line none r = r
  pointed_line (some b) r = flag_line b r

  module _ (is_print : ℕ → Bool) where
    pub text_line : (s : Str) → Renders ls hs → Renders (text_entry is_print key s ∷ ls) hs
    text_line s r = entry_line key (quote is_print s) k.clean k.plain (quote-Clean is_print s) r

    pub optional_text :
        (b : Bool) (s : Str)
        → Renders ls hs
        → Renders (optional b (text_entry is_print key s) ++ ls) hs
    optional_text b s r = entry_under b (quote is_print s) (quote-Clean is_print s) r

    pub array_line :
        (arr : List Str)
        → Renders ls hs
        → Renders (entry key (format_string_array is_print arr) ∷ ls) hs
    array_line arr r =
        entry_line key (format_string_array is_print arr) k.clean k.plain
          (format_string_array-Clean is_print arr) r

    pub optional_array :
        (b : Bool) (arr : List Str)
        → Renders ls hs
        → Renders (optional b (entry key (format_string_array is_print arr)) ++ ls) hs
    optional_array b arr r =
        entry_under b (format_string_array is_print arr) (format_string_array-Clean is_print arr) r
