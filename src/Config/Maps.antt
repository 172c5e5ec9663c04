-- ===== src/Config/Maps.antt =====
-- Go maps with string keys, as association lists.
use popu_gate.Prelude.{
  ◌≡◌, refl, Str, str_eq, str_eq_iff, List, [], ◌∷◌, Option, none, some, arith, if◌then◌else◌,
}

module _ {ℓ} {V : Type ℓ} where
  -- m[k] = v
  unfoldable pub assign : Str → V → List (Str × V) → List (Str × V)
  assign k v [] = (k, v) ∷ []
  assign k v ((j, w) ∷ m) = if str_eq j k then (j, v) ∷ m else (j, w) ∷ assign k v m

  -- v, ok := m[k]
  unfoldable pub find : Str → List (Str × V) → Option V
  find k [] = none
  find k ((j, w) ∷ m) = if str_eq j k then some w else find k m

  pub find-assign :
      (l k : Str) (v : V) (m : List (Str × V))
      → find l (assign k v m) ≡ (if str_eq k l then some v else find l m)
  unfolding find assign
  find-assign l k v [] = refl
  find-assign l k v ((j, w) ∷ m) =
      ground (arith, str_eq_iff j k, str_eq_iff j l, str_eq_iff k l, find-assign l k v m)

  unfoldable pub keys : List (Str × V) → List Str
  keys [] = []
  keys ((j, w) ∷ m) = j ∷ keys m

  -- delete(m, k)
  unfoldable pub remove : Str → List (Str × V) → List (Str × V)
  remove k [] = []
  remove k ((j, w) ∷ m) = if str_eq j k then remove k m else (j, w) ∷ remove k m

  pub find-remove :
      (l k : Str) (m : List (Str × V))
      → find l (remove k m) ≡ (if str_eq k l then none else find l m)
  unfolding find remove
  find-remove l k [] = ground arith
  find-remove l k ((j, w) ∷ m) =
      ground (arith, str_eq_iff j k, str_eq_iff j l, str_eq_iff k l, find-remove l k m)
