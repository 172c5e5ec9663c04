-- ===== src/InstanceStore/Ports.antt =====
-- `BackfillAPIPorts` of internal/store/instance_store.go.
use popu_gate.Prelude.{
  ℕ, zero, suc, ℤ, pos, negsuc, Bool, true, false, List, [], ◌∷◌, if◌then◌else◌, leb, length,
}
use popu_gate.Model.Instance.{Instance}
use popu_gate.Sys.{M, pure, ◌>>=◌, ◌>>◌}
use popu_gate.InstanceModel.Validate.{eq_ℤ}
use popu_gate.InstanceStore.Defs.{list, update}

-- `apiPortBase`
abbrev pub api_port_base : ℕ
api_port_base = 19091

-- used[n]
unfoldable pub is_used : ℕ → List ℤ → Bool
is_used n [] = false
is_used n (p ∷ used) = if eq_ℤ p n then true else is_used n used

-- The search of the second loop from a port on, at most `fuel` rounds.
unfoldable pub next_free : ℕ → ℕ → List ℤ → ℕ
unfolding is_used
next_free zero n used = n
next_free (suc fuel) n used = elim (is_used n used) [
  | true ↦ next_free fuel (suc n) used
  | false ↦ n
]

-- The entries of `used` that the first loop makes.
unfoldable pub used_ports : List Instance → List ℤ
used_ports [] = []
used_ports (i ∷ is) =
    if eq_ℤ i.api_port 0
    then i.port ∷ i.metrics_port ∷ used_ports is
    else i.port ∷ i.metrics_port ∷ i.api_port ∷ used_ports is

-- if inst.APIPort >= next { next = inst.APIPort + 1 }
abbrev pub past : ℤ → ℕ → ℕ
past (pos p) n = if leb n p then suc p else n
past (negsuc p) n = n

-- The first port behind the base and the ports in use, after the first loop.
unfoldable pub first_next : List Instance → ℕ → ℕ
first_next [] n = n
first_next (i ∷ is) n = first_next is (if eq_ℤ i.api_port 0 then n else past i.api_port n)

-- The instances that the second loop updates, in order, each with its port. Every round marks its
-- port as used; the number of used ports is fuel enough.
unfoldable pub assigned : List Instance → ℕ → List ℤ → List Instance
unfolding next_free
assigned [] next used = []
assigned (i ∷ is) next used =
    let port = next_free (suc (length used)) next used in
    let taken = record i { api_port = pos port } ∷ assigned is (suc port) (pos port ∷ used) in
    let kept = assigned is next used in if eq_ℤ i.api_port 0 then taken else kept

-- The updates of the second loop; an error ends it. The result is the number of updates.
unfoldable pub update_all : List Instance → ℕ → M ℕ
update_all [] n = pure n
update_all (i ∷ is) n = do update i; update_all is (suc n)

-- `BackfillAPIPorts`
unfoldable pub backfill_api_ports : M ℕ
unfolding used_ports first_next assigned update_all
backfill_api_ports = do
  instances ← list
  update_all (assigned instances (first_next instances api_port_base) (used_ports instances)) 0
