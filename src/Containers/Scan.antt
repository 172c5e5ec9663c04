-- ===== src/Containers/Scan.antt =====
-- A counted loop that returns at the first index of which a test holds.
use popu_gate.Prelude.{
  ℕ, zero, suc, ◌+◌, ◌≤◌, ◌<◌, ◌≡◌, Bool, true, false, Option, none, some, arith, Bool-cases, inl,
  inr, ◌==◌,
}

-- The rounds from an index on; none where the loop runs to its end.
unfoldable pub first_index : (ℕ → Bool) → ℕ → ℕ → Option ℕ
first_index test i zero = none
first_index test i (suc rounds) = elim (test i) [
  | true ↦ some i
  | false ↦ first_index test (suc i) rounds
]

-- The test fails at every index of a range.
abbrev pub NoneIn : (ℕ → Bool) → ℕ → ℕ → Type 0
NoneIn test i n = (k : ℕ) → i ≤ k → k < n → test k ≡ false

-- What the loop returns.
abbrev pub Scanned : (ℕ → Bool) → ℕ → ℕ → Option ℕ → Type 0
Scanned test i n none = NoneIn test i n
Scanned test i n (some k) = (i ≤ k) × (k < n) × (test k ≡ true) × NoneIn test i k

==→≡ : (k i : ℕ) → (k == i) ≡ true → k ≡ i
==→≡ k i h = ground arith

above : (k i : ℕ) → (k == i) ≡ false → i ≤ k → suc i ≤ k
above k i h a = ground arith

extend : (test : ℕ → Bool) (i n : ℕ) → test i ≡ false → NoneIn test (suc i) n → NoneIn test i n
extend test i n e h k a b = elim (Bool-cases (k == i)) [
  | inl same ↦ rw (==→≡ k i same) e
  | inr other ↦ h k (above k i other a) b
]

scan_step :
    (test : ℕ → Bool) (i rounds : ℕ) (r : Option ℕ)
    → test i ≡ false
    → Scanned test (suc i) (suc i + rounds) r
    → Scanned test i (i + suc rounds) r
scan_step test i rounds none e h = extend test i (i + suc rounds) e (λ k a b. h k a (omega arith))
scan_step test i rounds (some k) e (a, b, c, d) = (omega arith, omega arith, c, extend test i k e d)

pub first_index_lem :
    (test : ℕ → Bool) (rounds i : ℕ) → Scanned test i (i + rounds) (first_index test i rounds)
unfolding first_index
first_index_lem test zero i = λ k a b. absurd (omega arith)
first_index_lem test (suc rounds) i = elim (Bool-cases (test i)) [
  | inl e ↦ rw (e, first_index) (omega arith, omega arith, e, λ k a b. absurd (omega arith))
  | inr e ↦
      rw (e, first_index)
        (scan_step test i rounds (first_index test (suc i) rounds) e
          (first_index_lem test rounds (suc i)))
]
