-- ===== src/Config/Lines.antt =====
-- The lines of the rendered configuration, and the order of its keys.
use popu_gate.Prelude.{
  ℕ, Bool, true, false, not, ◌&&◌, ◌||◌, Str, codes, str_eq, List, [], ◌∷◌, ◌++◌, none, some,
  if◌then◌else◌, ◌==◌, ltb,
}
use popu_gate.Model.Secret.{validate_label}
use popu_gate.Format.Quote.{quote}
use popu_gate.Config.Maps.{find, keys}

-- The lines, each with its line feed.
unfoldable pub unlines : List Str → Str
unlines [] = []
unlines (l ∷ ls) = l ++ 10 ∷ unlines ls

-- key = value
abbrev pub entry : Str → Str → Str
entry key value = key ++ (codes " = " ++ value)

-- A line that is written under a condition.
abbrev pub optional : Bool → Str → List Str
optional true l = l ∷ []
optional false l = []

abbrev pub given : Str → Bool
given s = not (str_eq s [])

-- The items of a loop, each with the lines that its round writes.
unfoldable pub each {ℓ} : {A : Type ℓ} → (A → List Str) → List A → List Str
each f [] = []
each f (x ∷ xs) = f x ++ each f xs

-- `x < y` on strings, byte by byte.
unfoldable pub str_lt : Str → Str → Bool
str_lt [] [] = false
str_lt [] (y ∷ ys) = true
str_lt (x ∷ xs) [] = false
str_lt (x ∷ xs) (y ∷ ys) = ltb x y || x == y && str_lt xs ys

-- `sort.Strings`, by insertion.
unfoldable pub insert_key : Str → List Str → List Str
unfolding str_lt
insert_key k [] = k ∷ []
insert_key k (j ∷ js) = if str_lt j k then j ∷ insert_key k js else k ∷ j ∷ js

unfoldable pub sort_strings : List Str → List Str
unfolding insert_key
sort_strings [] = []
sort_strings (k ∷ ks) = insert_key k (sort_strings ks)

-- `sortedKeys`
unfoldable pub sorted_keys : {V : Type 0} → List (Str × V) → List Str
unfolding sort_strings keys
sorted_keys m = sort_strings (keys m)

-- m[k], which is the zero value where the key is missing.
abbrev pub value_at : {V : Type 0} → V → Str → List (Str × V) → V
value_at zero_value k m = elim (find k m) [ none ↦ zero_value | some v ↦ v ]

-- The loop over the labels of a map that are valid keys.
unfoldable pub label_lines : (Str → List Str) → List Str → List Str
label_lines f [] = []
label_lines f (l ∷ ls) = if validate_label l then f l ++ label_lines f ls else label_lines f ls

-- A table of the access section: nothing where the map is empty.
abbrev pub access_table : {V : Type 0} → Str → (V → Str) → V → List (Str × V) → List Str
access_table name show zero_value [] = []
access_table name show zero_value (p ∷ m) =
    name
      ∷ label_lines (λ l. entry l (show (value_at zero_value l (p ∷ m))) ∷ []) (sorted_keys (p ∷ m))
    ++ [] ∷ []

module _ (is_print : ℕ → Bool) where
  abbrev pub text_entry : Str → Str → Str
  text_entry key value = entry key (quote is_print value)

  -- `strings.Join` of the quoted parts.
  unfoldable pub join_quoted : Str → List Str → Str
  join_quoted s [] = quote is_print s
  join_quoted s (t ∷ arr) = quote is_print s ++ (codes ", " ++ join_quoted t arr)

  -- `formatStringArray`
  unfoldable pub format_string_array : List Str → Str
  unfolding join_quoted
  format_string_array [] = codes "[]"
  format_string_array (s ∷ arr) = codes "[" ++ (join_quoted s arr ++ codes "]")
