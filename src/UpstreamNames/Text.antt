-- ===== src/UpstreamNames/Text.antt =====
-- The functions of packages strings and net that the names use, and `collapseDashes`.
use popu_gate.Prelude.{
  ℕ, zero, suc, Bool, true, false, not, ◌&&◌, ◌||◌, Str, [], ◌∷◌, Option, none, some, if◌then◌else◌,
  ◌==◌, length,
}
use popu_gate.UpstreamStore.Validate.{backwards}

unfoldable pub has_byte : ℕ → Str → Bool
has_byte c [] = false
has_byte c (x ∷ xs) = if x == c then true else has_byte c xs

-- The text in front of the first such byte, and behind it.
unfoldable pub split_first : ℕ → Str → Option (Str × Str)
split_first c [] = none
split_first c (x ∷ xs) =
    let rest = split_first c xs in
    if x == c then some ([], xs) else elim rest [ none ↦ none | some (a, b) ↦ some (x ∷ a, b) ]

-- The same at the last such byte.
unfoldable pub split_last : ℕ → Str → Option (Str × Str)
split_last c [] = none
split_last c (x ∷ xs) = elim (split_last c xs) [
  | none ↦ if x == c then some ([], xs) else none
  | some (a, b) ↦ some (x ∷ a, b)
]

abbrev pub bracketed : Str → Option (Str × Str) → Option (Str × Str)
bracketed rest none = none
bracketed rest (some (host, [])) = none
bracketed rest (some (host, c ∷ port)) =
    if c == b':' && not (has_byte b':' port) && not (has_byte b'[' rest) && not (has_byte b']' port)
    then some (host, port)
    else none

abbrev pub unbracketed : Str → Option (Str × Str) → Option (Str × Str)
unbracketed s none = none
unbracketed s (some (host, port)) =
    if has_byte b':' host || has_byte b'[' s || has_byte b']' s then none else some (host, port)

-- `net.SplitHostPort`: the host and the port, none for its errors.
unfoldable pub split_host_port : Str → Option (Str × Str)
unfolding has_byte split_first split_last
split_host_port [] = none
split_host_port (x ∷ xs) =
    if x == b'['
    then bracketed xs (split_first b']' xs)
    else unbracketed (x ∷ xs) (split_last b':' (x ∷ xs))

abbrev pub dash : ℕ
dash = b'-'

-- `strings.ReplaceAll(s, "--", "-")`
unfoldable pub replace_dashes : Str → Str
replace_dashes [] = []
replace_dashes (x ∷ []) = x ∷ []
replace_dashes (x ∷ y ∷ s) =
    let both = replace_dashes s in
    let one = replace_dashes (y ∷ s) in if x == dash && y == dash then dash ∷ both else x ∷ one

-- `strings.Contains(s, "--")`
unfoldable pub has_double : Str → Bool
has_double [] = false
has_double (x ∷ []) = false
has_double (x ∷ y ∷ s) = if x == dash && y == dash then true else has_double (y ∷ s)

-- The loop of `collapseDashes`, at most `fuel` rounds.
unfoldable pub collapse_rounds : ℕ → Str → Str
collapse_rounds zero s = s
collapse_rounds (suc fuel) s = elim (has_double s) [
  | false ↦ s
  | true ↦ collapse_rounds fuel (replace_dashes s)
]

-- `collapseDashes`: each round shortens the text, so its length is fuel enough.
unfoldable pub collapse_dashes : Str → Str
unfolding collapse_rounds replace_dashes has_double
collapse_dashes s = collapse_rounds (length s) s

unfoldable pub trim_left_dashes : Str → Str
trim_left_dashes [] = []
trim_left_dashes (x ∷ s) = elim (x == dash) [ true ↦ trim_left_dashes s | false ↦ x ∷ s ]

-- `strings.Trim(s, "-")`
unfoldable pub trim_dashes : Str → Str
unfolding trim_left_dashes
trim_dashes s = backwards (trim_left_dashes (backwards (trim_left_dashes s) [])) []
