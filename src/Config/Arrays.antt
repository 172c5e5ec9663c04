-- ===== src/Config/Arrays.antt =====
-- `formatStringArray` of pkg/telemt/config.go, against the arrays of strings of TOML.
use popu_gate.Prelude.{
  ℕ, zero, suc, ◌<◌, ◌≡◌, refl, ap, ◌∙◌, Bool, true, Str, codes, str_eq, List, [], ◌∷◌, ◌++◌,
  Option, none, some, if◌then◌else◌, arith, length, length-append, All,
}
use mathlib.Core.List.{append_assoc}
use popu_gate.UpstreamNames.Defs.{drop}
use popu_gate.ProxyLine.Defs.{has_prefix}
use popu_gate.Format.Quote.{quote}
use popu_gate.Format.Read.{read_string, is_plain_text, read_string-quote}
use popu_gate.Config.Lines.{join_quoted, format_string_array}

abbrev onto : Str → Option (List Str × Str) → Option (List Str × Str)
onto x none = none
onto x (some (xs, rest)) = some (x ∷ xs, rest)

-- Behind a string: the end of the array, or a comma, a blank and the strings that `k` reads.
abbrev with_item : Option (Str × Str) → (Str → Option (List Str × Str)) → Option (List Str × Str)
with_item none k = none
with_item (some (x, rest)) k =
    if has_prefix (codes "]") rest
    then some (x ∷ [], drop 1 rest)
    else if has_prefix (codes ", ") rest
    then onto x (k (drop 2 rest))
    else none

-- The strings of an array behind its bracket, at most `fuel` of them.
unfoldable read_items : ℕ → Str → Option (List Str × Str)
read_items zero s = none
read_items (suc fuel) s = with_item (read_string s) (read_items fuel)

-- An array of strings, and what follows it.
unfoldable pub read_array : Str → Option (List Str × Str)
unfolding read_items drop str_eq
read_array s =
    if has_prefix (codes "[]") s
    then some ([], drop 2 s)
    else if has_prefix (codes "[") s
    then read_items (length s) (drop 1 s)
    else none

-- Printable ASCII characters, and those that TOML has a short escape for.
abbrev pub IsPlain : Str → Type 0
IsPlain = All (λ c. is_plain_text c ≡ true)

module _ (is_print : ℕ → Bool) where
  length-join_quoted : (s : Str) (arr : List Str) → length arr < length (join_quoted is_print s arr)
  unfolding join_quoted quote
  length-join_quoted s [] = omega arith
  length-join_quoted s (t ∷ arr) = omega (
    arith,
    length-join_quoted t arr,
    length-append (quote is_print s) (codes ", " ++ join_quoted is_print t arr),
  )

  read_items-join_quoted :
      (fuel : ℕ) (s : Str) (arr : List Str) (rest : Str)
      → length arr < fuel
      → IsPlain s
      → All IsPlain arr
      → read_items fuel (join_quoted is_print s arr ++ b']' ∷ rest) ≡ some (s ∷ arr, rest)
  unfolding read_items join_quoted str_eq drop
  read_items-join_quoted zero s arr rest h p a = absurd (omega arith)
  read_items-join_quoted (suc fuel) s [] rest h p a =
      ap (λ o. with_item o (read_items fuel)) (read_string-quote is_print s (b']' ∷ rest) p)
  read_items-join_quoted (suc fuel) s (t ∷ arr) rest h p (q, a) =
      let tail = codes ", " ++ join_quoted is_print t arr in
      ap (read_items (suc fuel)) (append_assoc (quote is_print s) tail (b']' ∷ rest))
      ∙ (ap (λ o. with_item o (read_items fuel))
            (read_string-quote is_print s (tail ++ b']' ∷ rest) p)
          ∙ ap (onto s) (read_items-join_quoted fuel t arr rest (omega arith) q a))

  quoted_first : (s : Str) (arr : List Str) → (t : Str) × (join_quoted is_print s arr ≡ b'"' ∷ t)
  unfolding join_quoted quote
  quoted_first s [] = (_, refl)
  quoted_first s (t ∷ arr) = (_, refl)

  read_nonempty :
      (j rest : Str)
      → (t : Str) × (j ≡ b'"' ∷ t)
      → read_array (b'[' ∷ (j ++ rest)) ≡ read_items (suc (length (j ++ rest))) (j ++ rest)
  unfolding read_array
  read_nonempty j rest (t, e) = rw e refl

  read_empty : (rest : Str) → read_array (b'[' ∷ b']' ∷ rest) ≡ some ([], rest)
  unfolding read_array
  read_empty rest = refl

  -- An array of texts is read back from what formatStringArray writes for it, by the rules of TOML
  -- and whatever follows. The texts have printable ASCII characters, tabs, line feeds and the other
  -- characters that TOML has a short escape for.
  pub read_array-format_string_array :
      (arr : List Str) (rest : Str)
      → All IsPlain arr
      → read_array (format_string_array is_print arr ++ rest) ≡ some (arr, rest)
  unfolding format_string_array
  read_array-format_string_array [] rest a = read_empty rest
  read_array-format_string_array (s ∷ arr) rest (p, a) =
      let j = join_quoted is_print s arr in
      ap (λ (x : Str). read_array (b'[' ∷ x)) (append_assoc j (codes "]") rest)
      ∙ (read_nonempty j (b']' ∷ rest) (quoted_first s arr)
          ∙ read_items-join_quoted (suc (length (j ++ b']' ∷ rest))) s arr rest
              (omega (arith, length-join_quoted s arr, length-append j (b']' ∷ rest))) p a)
