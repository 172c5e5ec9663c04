-- ===== src/UpstreamNames/Bounds.antt =====
-- The lengths and the dashes of texts under `collapseDashes` and `strings.Trim`.
use popu_gate.Prelude.{
  ℕ, zero, suc, ◌+◌, ◌≤◌, ◌<◌, ◌≡◌, refl, Bool, true, false, ◌&&◌, Str, [], ◌∷◌, ◌==◌, arith,
  length,
}
use popu_gate.UpstreamStore.Validate.{backwards}
use popu_gate.UpstreamNames.Text.{
  dash, replace_dashes, has_double, collapse_rounds, collapse_dashes, trim_left_dashes, trim_dashes,
}

length-replace_dashes : (s : Str) → length (replace_dashes s) ≤ length s
unfolding replace_dashes
length-replace_dashes [] = omega arith
length-replace_dashes (x ∷ []) = omega arith
length-replace_dashes (x ∷ y ∷ s) =
    ground (arith, length-replace_dashes s, length-replace_dashes (y ∷ s))

replace_dashes_shorter : (s : Str) → has_double s ≡ true → length (replace_dashes s) < length s
unfolding replace_dashes has_double
replace_dashes_shorter [] h = cc
replace_dashes_shorter (x ∷ []) h = cc
replace_dashes_shorter (x ∷ y ∷ s) h =
    ground (arith, length-replace_dashes s, replace_dashes_shorter (y ∷ s))

length-collapse_rounds : (n : ℕ) (s : Str) → length (collapse_rounds n s) ≤ length s
unfolding collapse_rounds
length-collapse_rounds zero s = omega arith
length-collapse_rounds (suc n) s =
    ground (arith, length-collapse_rounds n (replace_dashes s), length-replace_dashes s)

single_empty : has_double [] ≡ false
unfolding has_double
single_empty = refl

has_double-collapse_rounds :
    (n : ℕ) (s : Str) → length s ≤ n → has_double (collapse_rounds n s) ≡ false
unfolding collapse_rounds
has_double-collapse_rounds zero [] h = single_empty
has_double-collapse_rounds zero (x ∷ s) h = ground arith
has_double-collapse_rounds (suc n) s h =
    ground (arith, has_double-collapse_rounds n (replace_dashes s), replace_dashes_shorter s)

length-backwards : (s acc : Str) → length (backwards s acc) ≡ length s + length acc
unfolding backwards
length-backwards [] acc = omega arith
length-backwards (x ∷ s) acc = omega (arith, length-backwards s (x ∷ acc))

length-trim_left_dashes : (s : Str) → length (trim_left_dashes s) ≤ length s
unfolding trim_left_dashes
length-trim_left_dashes [] = omega arith
length-trim_left_dashes (x ∷ s) = ground (arith, length-trim_left_dashes s)

pub length-trim_dashes : (s : Str) → length (trim_dashes s) ≤ length s
unfolding trim_dashes
length-trim_dashes s = omega (
  arith,
  length-trim_left_dashes s,
  length-backwards (trim_left_dashes s) [],
  length-trim_left_dashes (backwards (trim_left_dashes s) []),
  length-backwards (trim_left_dashes (backwards (trim_left_dashes s) [])) [],
)

pub length-collapse_dashes : (s : Str) → length (collapse_dashes s) ≤ length s
unfolding collapse_dashes
length-collapse_dashes s = length-collapse_rounds (length s) s

-- Whether the two texts would meet in dashes, the first of them read backwards.
abbrev meets : Str → Str → Bool
meets [] acc = false
meets (x ∷ s) [] = false
meets (x ∷ s) (y ∷ acc) = x == dash && y == dash

prepended :
    (x : ℕ) (acc s : Str)
    → has_double acc ≡ false
    → meets (x ∷ s) acc ≡ false
    → has_double (x ∷ acc) ≡ false
unfolding has_double
prepended x [] s k m = refl
prepended x (y ∷ acc) s k m = ground arith

has_double-backwards :
    (s acc : Str)
    → has_double s ≡ false
    → has_double acc ≡ false
    → meets s acc ≡ false
    → has_double (backwards s acc) ≡ false
unfolding backwards has_double
has_double-backwards [] acc h k m = k
has_double-backwards (x ∷ []) acc h k m =
    has_double-backwards [] (x ∷ acc) refl (prepended x acc [] k m) refl
has_double-backwards (x ∷ y ∷ s) acc h k m =
    has_double-backwards (y ∷ s) (x ∷ acc) (ground arith) (prepended x acc (y ∷ s) k m)
      (ground arith)

has_double-trim_left_dashes :
    (s : Str) → has_double s ≡ false → has_double (trim_left_dashes s) ≡ false
unfolding trim_left_dashes has_double
has_double-trim_left_dashes [] h = refl
has_double-trim_left_dashes (x ∷ []) h = ground (arith, has_double-trim_left_dashes [])
has_double-trim_left_dashes (x ∷ y ∷ s) h = ground (arith, has_double-trim_left_dashes (y ∷ s))

reversed_single : (s : Str) → has_double s ≡ false → has_double (backwards s []) ≡ false
reversed_single [] h = has_double-backwards [] [] h single_empty refl
reversed_single (x ∷ s) h = has_double-backwards (x ∷ s) [] h single_empty refl

pub has_double-trim_dashes : (s : Str) → has_double s ≡ false → has_double (trim_dashes s) ≡ false
unfolding trim_dashes
has_double-trim_dashes s h =
    reversed_single _
      (has_double-trim_left_dashes _ (reversed_single _ (has_double-trim_left_dashes s h)))

pub has_double-collapse_dashes : (s : Str) → has_double (collapse_dashes s) ≡ false
unfolding collapse_dashes
has_double-collapse_dashes s = has_double-collapse_rounds (length s) s (omega arith)
