-- ===== src/InstanceStore/Fresh.antt =====
-- The search of `BackfillAPIPorts` for a port, and the ports that it assigns.
use popu_gate.Prelude.{
  ℕ, zero, suc, ◌≤◌, ◌<◌, ◌≡◌, refl, sym, ◌∙◌, ap, ℤ, pos, true, false, List, [], ◌∷◌,
  if◌then◌else◌, length, arith, All, Bool-cases, inl, inr,
}
use popu_gate.Model.Instance.{Instance}
use popu_gate.InstanceModel.Validate.{eq_ℤ}
use popu_gate.InstanceStore.Ports.{is_used, next_free, assigned}

-- The ports in use without one of them.
without : ℕ → List ℤ → List ℤ
without n [] = []
without n (p ∷ used) = if eq_ℤ p n then without n used else p ∷ without n used

length-without-le : (n : ℕ) (used : List ℤ) → length (without n used) ≤ length used
unfolding without
length-without-le n [] = omega arith
length-without-le n (p ∷ used) = ground (arith, length-without-le n used)

length-without :
    (n : ℕ) (used : List ℤ) → is_used n used ≡ true → length (without n used) < length used
unfolding without is_used
length-without n [] h = cc
length-without n (p ∷ used) h = elim (Bool-cases (eq_ℤ p n)) [
  | inl e ↦ rw e (omega (arith, length-without-le n used))
  | inr e ↦ rw e (omega (arith, length-without n used (rw e at h)))
]

is_used-without : (m n : ℕ) (used : List ℤ) → n < m → is_used m (without n used) ≡ is_used m used
unfolding without is_used
is_used-without m n [] h = refl
is_used-without m n (p ∷ used) h = ground (arith, is_used-without m n used)

pub le-next_free : (fuel n : ℕ) (used : List ℤ) → n ≤ next_free fuel n used
unfolding next_free
le-next_free zero n used = omega arith
le-next_free (suc fuel) n used = elim (Bool-cases (is_used n used)) [
  | inl e ↦ rw (e, next_free) (omega (arith, le-next_free fuel (suc n) used))
  | inr e ↦ rw (e, next_free) (omega arith)
]

next_free-without :
    (fuel m n : ℕ) (used : List ℤ)
    → n < m
    → next_free fuel m (without n used) ≡ next_free fuel m used
unfolding next_free
next_free-without zero m n used h = refl
next_free-without (suc fuel) m n used h =
    ground (arith, is_used-without m n used, next_free-without fuel (suc m) n used)

-- The search for a free port ends by its test: with more fuel than there are ports in use, the port
-- that it stops at is not in use.
pub next_free-unused :
    (fuel n : ℕ) (used : List ℤ) → length used < fuel → is_used (next_free fuel n used) used ≡ false
unfolding next_free
next_free-unused zero n used h = elim h [ ]
next_free-unused (suc fuel) n used h = elim (Bool-cases (is_used n used)) [
  | inl e ↦
      rw (e, next_free)
        (sym (
            is_used-without (next_free fuel (suc n) used) n used
              (omega (arith, le-next_free fuel (suc n) used)))
          ∙ (ap (λ (k : ℕ). is_used k (without n used))
                (sym (next_free-without fuel (suc n) n used (omega arith)))
              ∙ next_free-unused fuel (suc n) (without n used)
                  (omega (arith, length-without n used e))))
  | inr e ↦ rw (e, next_free) e
]

-- A port from the bound on that is not in use.
abbrev pub Unused : ℕ → List ℤ → Instance → Type 0
Unused n used j = (p : ℕ) × (j.api_port ≡ pos p) × (n ≤ p) × (is_used p used ≡ false)

Unused-mono :
    (n m : ℕ) (p : ℤ) (used : List ℤ) (js : List Instance)
    → n ≤ m
    → All (Unused m (p ∷ used)) js
    → All (Unused n used) js
unfolding is_used
Unused-mono n m p used [] h a = tt
Unused-mono n m p used (j ∷ js) h ((q, e, b, u), rest) =
    ((q, e, omega arith, ground arith), Unused-mono n m p used js h rest)

pub assigned-Unused :
    (is : List Instance) (n : ℕ) (used : List ℤ) → All (Unused n used) (assigned is n used)
unfolding assigned
assigned-Unused [] n used = tt
assigned-Unused (i ∷ is) n used = elim (Bool-cases (eq_ℤ i.api_port 0)) [
  | inl e ↦ rw e (
      let port : ℕ = next_free (suc (length used)) n used in
      (
        (
          port,
          refl,
          le-next_free (suc (length used)) n used,
          next_free-unused (suc (length used)) n used (omega arith),
        ),
        Unused-mono n (suc port) (pos port) used (assigned is (suc port) (pos port ∷ used))
            (omega (arith, le-next_free (suc (length used)) n used))
            (assigned-Unused is (suc port) (pos port ∷ used)),
      ))
  | inr e ↦ rw e (assigned-Unused is n used)
]
