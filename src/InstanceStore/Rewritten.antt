-- ===== src/InstanceStore/Rewritten.antt =====
-- Updates of rows with distinct ids, as one change of every row.
use popu_gate.Prelude.{
  ℕ, ℤ, ◌≡◌, refl, ap, ◌∙◌, true, false, List, [], ◌∷◌, ◌++◌, map, Option, none, some, ◌==◌, arith,
  All, Bool-cases, inl, inr, leb_ℤ,
}
use popu_gate.Model.Instance.{Instance}
use popu_gate.InstanceModel.Validate.{eq_ℤ}
use popu_gate.InstanceStore.Rows.{find_id, update_id, order_by_port, insert_by_port}
use popu_gate.InstanceStore.Ports.{assigned}
use popu_gate.InstanceStore.Written.{updates}

-- No row has the id.
abbrev pub NoId : ℕ → List Instance → Type 0
NoId n = All (λ r. (r.id == n) ≡ false)

abbrev pub DistinctIds : List Instance → Type 0
DistinctIds [] = Unit
DistinctIds (r ∷ rs) = NoId r.id rs × DistinctIds rs

abbrev pub or_row : Instance → Option Instance → Instance
or_row r none = r
or_row r (some i) = i

-- Every row that the list has an entry for becomes that entry, and every other row stays.
abbrev pub rewritten : List Instance → List Instance → List Instance
rewritten is = map (λ r. or_row r (find_id r.id is))

find_id-NoId : (n : ℕ) (rs : List Instance) → NoId n rs → find_id n rs ≡ none
unfolding find_id
find_id-NoId n [] a = refl
find_id-NoId n (r ∷ rs) a = rw a.0 (find_id-NoId n rs a.1)

same_number : (m n : ℕ) → (m == n) ≡ true → m ≡ n
same_number m n h = ground arith

other_number : (m n : ℕ) → (m == n) ≡ false → (n == m) ≡ false
other_number m n h = ground arith

self_number : (m n : ℕ) → (m == n) ≡ true → (n == m) ≡ true
self_number m n h = ground arith

rewritten-update_id :
    (i : Instance) (is rows : List Instance)
    → NoId i.id is
    → rewritten is (update_id i rows) ≡ rewritten (i ∷ is) rows
unfolding update_id find_id
rewritten-update_id i is [] a = refl
rewritten-update_id i is (r ∷ rows) a = elim (Bool-cases (r.id == i.id)) [
  | inl e ↦
      rw (e, self_number r.id i.id e, find_id-NoId i.id is a)
        (ap (◌∷◌ i) (rewritten-update_id i is rows a))
  | inr e ↦
      rw (e, other_number r.id i.id e)
        (ap (◌∷◌ (or_row r (find_id r.id is))) (rewritten-update_id i is rows a))
]

pub rewritten-nil : (rows : List Instance) → rows ≡ rewritten [] rows
unfolding find_id
rewritten-nil [] = refl
rewritten-nil (r ∷ rows) = ap (◌∷◌ r) (rewritten-nil rows)

pub updates-rewritten :
    (is rows : List Instance) → DistinctIds is → updates is rows ≡ rewritten is rows
updates-rewritten [] rows d = rewritten-nil rows
updates-rewritten (i ∷ is) rows (a, d) =
    updates-rewritten is (update_id i rows) d ∙ rewritten-update_id i is rows a

-- The order of the ports keeps what holds of every row.
module _ (P : Instance → Type 0) where
  insert_by_port-All :
      (i : Instance) (rs : List Instance) → P i → All P rs → All P (insert_by_port i rs)
  unfolding insert_by_port
  insert_by_port-All i [] p a = (p, tt)
  insert_by_port-All i (r ∷ rs) p (q, a) = elim (Bool-cases (leb_ℤ i.port r.port)) [
    | inl e ↦ rw e (p, (q, a))
    | inr e ↦ rw e (q, insert_by_port-All i rs p a)
  ]

  order_by_port-All : (rs : List Instance) → All P rs → All P (order_by_port rs)
  unfolding order_by_port
  order_by_port-All [] a = tt
  order_by_port-All (r ∷ rs) (p, a) =
      insert_by_port-All r (order_by_port rs) p (order_by_port-All rs a)

insert_by_port-DistinctIds :
    (i : Instance) (rs : List Instance)
    → NoId i.id rs
    → DistinctIds rs
    → DistinctIds (insert_by_port i rs)
unfolding insert_by_port
insert_by_port-DistinctIds i [] a d = (tt, tt)
insert_by_port-DistinctIds i (r ∷ rs) (x, a) (b, d) = elim (Bool-cases (leb_ℤ i.port r.port)) [
  | inl e ↦ rw e ((x, a), (b, d))
  | inr e ↦ rw e (
    insert_by_port-All (λ q. (q.id == r.id) ≡ false) i rs (other_number r.id i.id x) b,
    insert_by_port-DistinctIds i rs a d,
  )
]

pub order_by_port-DistinctIds :
    (rs : List Instance) → DistinctIds rs → DistinctIds (order_by_port rs)
unfolding order_by_port
order_by_port-DistinctIds [] d = tt
order_by_port-DistinctIds (r ∷ rs) (a, d) =
    insert_by_port-DistinctIds r (order_by_port rs)
      (order_by_port-All (λ q. (q.id == r.id) ≡ false) rs a) (order_by_port-DistinctIds rs d)

assigned-NoId :
    (n : ℕ) (is : List Instance) (next : ℕ) (used : List ℤ)
    → NoId n is
    → NoId n (assigned is next used)
unfolding assigned
assigned-NoId n [] next used a = tt
assigned-NoId n (i ∷ is) next used (x, a) = elim (Bool-cases (eq_ℤ i.api_port 0)) [
  | inl e ↦ rw e (x, assigned-NoId n is _ _ a)
  | inr e ↦ rw e (assigned-NoId n is next used a)
]

pub assigned-DistinctIds :
    (is : List Instance) (next : ℕ) (used : List ℤ)
    → DistinctIds is
    → DistinctIds (assigned is next used)
unfolding assigned
assigned-DistinctIds [] next used d = tt
assigned-DistinctIds (i ∷ is) next used (a, d) = elim (Bool-cases (eq_ℤ i.api_port 0)) [
  | inl e ↦ rw e (assigned-NoId i.id is _ _ a, assigned-DistinctIds is _ _ d)
  | inr e ↦ rw e (assigned-DistinctIds is next used d)
]

front-NoId : (n : ℕ) (js ks : List Instance) → NoId n (js ++ ks) → NoId n js
front-NoId n [] ks a = tt
front-NoId n (r ∷ js) ks (x, a) = (x, front-NoId n js ks a)

pub front-DistinctIds : (js ks : List Instance) → DistinctIds (js ++ ks) → DistinctIds js
front-DistinctIds [] ks d = tt
front-DistinctIds (r ∷ js) ks (a, d) = (front-NoId r.id js ks a, front-DistinctIds js ks d)
