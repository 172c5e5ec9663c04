-- ===== src/Prelude/Text.antt =====
-- Go strings as lists of bytes, and their comparison.
use Prim.Native.Nat.{ℕ}
use Prim.Native.Char.{code}
use Prim.Native.String.{String}
use mathlib.Core.Path.{◌≡◌, refl}
use mathlib.Core.Logic.{◌↔◌, ◌≢◌}
use mathlib.Core.Bool.{Bool, true, false, ◌&&◌}
use mathlib.Core.List.{List, [], ◌∷◌}
use native.Mathlib.Omega.{arith}
use popu_gate.Prelude.Tests.{◌==◌}

abbrev pub Str : Type 0
Str = List ℕ

-- The code points of a text: its bytes, if it is ASCII.
abbrev pub codes : String → Str
codes String.[] = []
codes (String.◌∷◌ c s) = code c ∷ codes s

unfoldable pub str_eq : Str → Str → Bool
str_eq [] [] = true
str_eq [] (y ∷ ys) = false
str_eq (x ∷ xs) [] = false
str_eq (x ∷ xs) (y ∷ ys) = (x == y) && str_eq xs ys

str_eq→≡ : (a b : Str) → str_eq a b ≡ true → a ≡ b
unfolding str_eq
str_eq→≡ [] [] h = refl
str_eq→≡ [] (y ∷ ys) h = cc
str_eq→≡ (x ∷ xs) [] h = cc
str_eq→≡ (x ∷ xs) (y ∷ ys) h = ground (arith, str_eq→≡ xs ys)

pub str_eq_refl : (a : Str) → str_eq a a ≡ true
unfolding str_eq
str_eq_refl [] = refl
str_eq_refl (x ∷ xs) = ground (arith, str_eq_refl xs)

≡→str_eq : (a b : Str) → a ≡ b → str_eq a b ≡ true
≡→str_eq a b e = rw e (str_eq_refl b)

pub str_eq_iff : (a b : Str) → (str_eq a b ≡ true) ↔ (a ≡ b)
str_eq_iff a b = (str_eq→≡ a b, ≡→str_eq a b)

pub str_eq-ne : (a b : Str) → a ≢ b → str_eq a b ≡ false
str_eq-ne a b h = ground (arith, str_eq_iff a b)
