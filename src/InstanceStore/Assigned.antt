-- ===== src/InstanceStore/Assigned.antt =====
-- The ports that `BackfillAPIPorts` assigns, against the ports of all instances.
use popu_gate.Prelude.{
  ℕ, suc, ◌≤◌, ◌<◌, ◌≡◌, ◌≢◌, refl, ap, ℤ, pos, Bool, true, false, List, [], ◌∷◌, map,
  if◌then◌else◌, length, arith, All, Bool-cases, inl, inr,
}
use popu_gate.Model.Instance.{Instance}
use popu_gate.InstanceModel.Validate.{eq_ℤ}
use popu_gate.InstanceStore.Ports.{
  api_port_base, is_used, next_free, used_ports, past, first_next, assigned,
}
use popu_gate.InstanceStore.Fresh.{Unused, assigned-Unused}

-- The port p is none of the ports of the instance.
abbrev pub Spares : ℕ → Instance → Type 0
Spares p i = (i.port ≢ pos p) × (i.metrics_port ≢ pos p) × (i.api_port ≢ pos p)

-- An API port from the base on that no instance of the list has as any of its ports.
abbrev pub IsFresh : List Instance → Instance → Type 0
IsFresh is j = (p : ℕ) × (j.api_port ≡ pos p) × (api_port_base ≤ p) × All (Spares p) is

-- The API port is another one.
abbrev pub Differs : Instance → Instance → Type 0
Differs j k = j.api_port ≢ k.api_port

abbrev pub Distinct : List Instance → Type 0
Distinct [] = Unit
Distinct (j ∷ js) = All (Differs j) js × Distinct js

-- The instances without an API port.
unfoldable pub lacking : List Instance → List Instance
lacking [] = []
lacking (i ∷ is) = if eq_ℤ i.api_port 0 then i ∷ lacking is else lacking is

abbrev pub no_api_port : Instance → Instance
no_api_port i = record i { api_port = pos 0 }

eq_ℤ-ne : (z : ℤ) (n : ℕ) → eq_ℤ z n ≡ false → z ≢ pos n
eq_ℤ-ne z n h e = ground arith

split_used :
    (p : ℕ) (z : ℤ) (used : List ℤ)
    → is_used p (z ∷ used) ≡ false
    → (z ≢ pos p) × (is_used p used ≡ false)
unfolding is_used
split_used p z used h = elim (Bool-cases (eq_ℤ z p)) [
  | inl e ↦ cc (let k : true ≡ false = rw e at h in k)
  | inr e ↦ (eq_ℤ-ne z p e, rw e at h)
]

zero_api_port : (z : ℤ) (p : ℕ) → eq_ℤ z 0 ≡ true → 0 < p → z ≢ pos p
zero_api_port z p h b e = ground arith

used_ports-Spares :
    (p : ℕ) (is : List Instance) → 0 < p → is_used p (used_ports is) ≡ false → All (Spares p) is
unfolding used_ports
used_ports-Spares p [] g h = tt
used_ports-Spares p (i ∷ is) g h = elim (Bool-cases (eq_ℤ i.api_port 0)) [
  | inl e ↦
      let a = split_used p i.port (i.metrics_port ∷ used_ports is) (rw e at h) in
      let b = split_used p i.metrics_port (used_ports is) a.1 in
      ((a.0, b.0, zero_api_port i.api_port p e g), used_ports-Spares p is g b.1)
  | inr e ↦
      let a = split_used p i.port (i.metrics_port ∷ i.api_port ∷ used_ports is) (rw e at h) in
      let b = split_used p i.metrics_port (i.api_port ∷ used_ports is) a.1 in
      let c = split_used p i.api_port (used_ports is) b.1 in
      ((a.0, b.0, c.0), used_ports-Spares p is g c.1)
]

past-le : (b : Bool) (z : ℤ) (n : ℕ) → n ≤ (if b then n else past z n)
past-le b z n = ground arith

first_next-le : (is : List Instance) (n : ℕ) → n ≤ first_next is n
unfolding first_next
first_next-le [] n = omega arith
first_next-le (i ∷ is) n = omega (
  arith,
  past-le (eq_ℤ i.api_port 0) i.api_port n,
  first_next-le is (if eq_ℤ i.api_port 0 then n else past i.api_port n),
)

later_ne : (n q : ℕ) (z : ℤ) → z ≡ pos q → suc n ≤ q → pos n ≢ z
later_ne n q z e b d = ground arith

distinct_later :
    (i : Instance) (n : ℕ) (used : List ℤ) (js : List Instance)
    → All (Unused (suc n) (pos n ∷ used)) js
    → All (Differs (record i { api_port = pos n })) js
distinct_later i n used [] a = tt
distinct_later i n used (j ∷ js) ((q, e, b, u), rest) =
    (later_ne n q j.api_port e b, distinct_later i n used js rest)

assigned-Distinct : (is : List Instance) (n : ℕ) (used : List ℤ) → Distinct (assigned is n used)
unfolding assigned
assigned-Distinct [] n used = tt
assigned-Distinct (i ∷ is) n used = elim (Bool-cases (eq_ℤ i.api_port 0)) [
  | inl e ↦ rw e (
      let port : ℕ = next_free (suc (length used)) n used in
      (
        distinct_later i port used (assigned is (suc port) (pos port ∷ used))
            (assigned-Unused is (suc port) (pos port ∷ used)),
        assigned-Distinct is (suc port) (pos port ∷ used),
      ))
  | inr e ↦ rw e (assigned-Distinct is n used)
]

assigned-lacking :
    (is : List Instance) (n : ℕ) (used : List ℤ)
    → map no_api_port (assigned is n used) ≡ map no_api_port (lacking is)
unfolding assigned lacking
assigned-lacking [] n used = refl
assigned-lacking (i ∷ is) n used = elim (Bool-cases (eq_ℤ i.api_port 0)) [
  | inl e ↦ rw e (
      let port : ℕ = next_free (suc (length used)) n used in
      ap (λ (js : List Instance). no_api_port i ∷ js)
        (assigned-lacking is (suc port) (pos port ∷ used)))
  | inr e ↦ rw e (assigned-lacking is n used)
]

All-IsFresh :
    (n : ℕ) (is js : List Instance)
    → api_port_base ≤ n
    → All (Unused n (used_ports is)) js
    → All (IsFresh is) js
All-IsFresh n is [] h a = tt
All-IsFresh n is (j ∷ js) h ((p, e, b, u), rest) =
    ((p, e, omega arith, used_ports-Spares p is (omega arith) u), All-IsFresh n is js h rest)

-- What `BackfillAPIPorts` writes, for any instances: exactly the instances without an API port, in
-- order and changed in nothing else, each with a port from the base on that no instance has as its
-- port, metrics port or API port, and no two with the same port.
pub assigned_ports :
    (is : List Instance)
    → let plan = assigned is (first_next is api_port_base) (used_ports is) in
      (map no_api_port plan ≡ map no_api_port (lacking is)) × All (IsFresh is) plan × Distinct plan
assigned_ports is =
    let n : ℕ = first_next is api_port_base in
    (
      assigned-lacking is n (used_ports is),
      All-IsFresh n is (assigned is n (used_ports is)) (first_next-le is api_port_base)
          (assigned-Unused is n (used_ports is)),
      assigned-Distinct is n (used_ports is),
    )
