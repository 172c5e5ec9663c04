-- ===== src/ProxyLine/Split.antt =====
-- Splitting of texts at a byte.
use popu_gate.Prelude.{
  ℕ, ◌≡◌, refl, ap, ◌∙◌, true, false, Str, List, [], ◌∷◌, ◌++◌, Option, none, some, if◌then◌else◌,
  ◌==◌, arith, Bool-cases, inl, inr,
}
use popu_gate.UpstreamNames.Text.{has_byte, split_first, split_last, split_host_port, unbracketed}
use popu_gate.ProxyLine.Defs.{split_colons, join_colons, onto_first}

-- The byte does not occur in the text.
abbrev pub Without : ℕ → Str → Type 0
Without c s = has_byte c s ≡ false

pub append-Without : (c : ℕ) (a b : Str) → Without c a → Without c b → Without c (a ++ b)
unfolding has_byte
append-Without c [] b h k = k
append-Without c (x ∷ a) b h k = ground (arith, append-Without c a b)

pub cons-Without : (c d : ℕ) (s : Str) → (d == c) ≡ false → Without c s → Without c (d ∷ s)
unfolding has_byte
cons-Without c d s h k = ground arith

pub split_first-append :
    (c : ℕ) (a b : Str) → Without c a → split_first c (a ++ c ∷ b) ≡ some (a, b)
unfolding split_first has_byte
split_first-append c [] b h = ground arith
split_first-append c (x ∷ a) b h = ground (arith, split_first-append c a b)

pub split_last-Without : (c : ℕ) (s : Str) → Without c s → split_last c s ≡ none
unfolding split_last has_byte
split_last-Without c [] h = refl
split_last-Without c (x ∷ s) h = ground (arith, split_last-Without c s)

pub split_last-append : (c : ℕ) (a b : Str) → Without c b → split_last c (a ++ c ∷ b) ≡ some (a, b)
unfolding split_last has_byte
split_last-append c [] b h = ground (arith, split_last-Without c b)
split_last-append c (x ∷ a) b h = ground (arith, split_last-append c a b)

pub split_colons-append :
    (a b : Str) → Without b':' a → split_colons (a ++ b':' ∷ b) ≡ a ∷ split_colons b
unfolding split_colons has_byte
split_colons-append [] b h = refl
split_colons-append (x ∷ a) b h = ground (arith, split_colons-append a b)

pub join_colons-onto_first :
    (c : ℕ) (p : Str) (ps : List Str)
    → join_colons (onto_first c (p ∷ ps)) ≡ c ∷ join_colons (p ∷ ps)
unfolding join_colons
join_colons-onto_first c p [] = refl
join_colons-onto_first c p (q ∷ ps) = refl

abbrev pub IsSplit : Str → List Str → Type 0
IsSplit s ps = (p : Str) × (qs : List Str) × (ps ≡ p ∷ qs) × (join_colons ps ≡ s)

join_onto :
    (c : ℕ) (p : Str) (qs ps : List Str)
    → ps ≡ p ∷ qs
    → join_colons (onto_first c ps) ≡ c ∷ join_colons ps
join_onto c p qs ps e = rw e (join_colons-onto_first c p qs)

join_cut :
    (p : Str) (qs ps : List Str) → ps ≡ p ∷ qs → join_colons ([] ∷ ps) ≡ b':' ∷ join_colons ps
unfolding join_colons
join_cut p qs ps e = rw e refl

first_onto : (c : ℕ) (p : Str) (qs ps : List Str) → ps ≡ p ∷ qs → onto_first c ps ≡ (c ∷ p) ∷ qs
first_onto c p qs ps e = rw e refl

same_byte : (c d : ℕ) → (c == d) ≡ true → d ≡ c
same_byte c d h = ground arith

IsSplit-step :
    (c : ℕ) (s : Str) (ps : List Str)
    → IsSplit s ps
    → IsSplit (c ∷ s) (if c == b':' then [] ∷ ps else onto_first c ps)
IsSplit-step c s ps (p, qs, e, j) = elim (Bool-cases (c == b':')) [
  | inl h ↦ rw h (
    [],
    ps,
    refl,
    join_cut p qs ps e ∙ (ap (λ (d : ℕ). d ∷ join_colons ps) (same_byte c b':' h) ∙ ap (◌∷◌ c) j),
  )
  | inr h ↦ rw h (c ∷ p, qs, first_onto c p qs ps e, join_onto c p qs ps e ∙ ap (◌∷◌ c) j)
]

-- Go's Join puts together what Split took apart, which is never nothing.
pub join_colons-split_colons : (s : Str) → IsSplit s (split_colons s)
unfolding split_colons join_colons
join_colons-split_colons [] = ([], [], refl, refl)
join_colons-split_colons (c ∷ s) = IsSplit-step c s (split_colons s) (join_colons-split_colons s)

host_port :
    (s host port : Str)
    → Without b':' host
    → Without b'[' s
    → Without b']' s
    → unbracketed s (some (host, port)) ≡ some (host, port)
host_port s host port h i j = rw (h, i, j) refl

no_bracket_first :
    (x : ℕ) (xs : Str) (a b : Option (Str × Str))
    → Without b'[' (x ∷ xs)
    → (if x == b'[' then a else b) ≡ b
unfolding has_byte
no_bracket_first x xs a b h = ground arith

pub split_host_port-plain :
    (s host port : Str)
    → split_last b':' s ≡ some (host, port)
    → Without b':' host
    → Without b'[' s
    → Without b']' s
    → split_host_port s ≡ some (host, port)
unfolding split_host_port split_last
split_host_port-plain [] host port e h i j = e
split_host_port-plain (x ∷ xs) host port e h i j =
    no_bracket_first x xs _ _ i ∙ (ap (unbracketed (x ∷ xs)) e ∙ host_port (x ∷ xs) host port h i j)
