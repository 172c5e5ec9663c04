-- ===== src/InstanceStore/Rows.antt =====
-- The rows of the table instances.
use popu_gate.Prelude.{
  ℕ, ◌+◌, ℤ, leb_ℤ, Bool, true, false, List, [], ◌∷◌, Option, none, some, if◌then◌else◌, ◌==◌,
}
use popu_gate.Model.Instance.{Instance}
use popu_gate.InstanceModel.Validate.{same_ℤ}

-- ORDER BY port
unfoldable pub insert_by_port : Instance → List Instance → List Instance
insert_by_port i [] = i ∷ []
insert_by_port i (r ∷ rs) = if leb_ℤ i.port r.port then i ∷ r ∷ rs else r ∷ insert_by_port i rs

unfoldable pub order_by_port : List Instance → List Instance
unfolding insert_by_port
order_by_port [] = []
order_by_port (r ∷ rs) = insert_by_port r (order_by_port rs)

unfoldable pub enabled_only : List Instance → List Instance
enabled_only [] = []
enabled_only (r ∷ rs) = if r.enabled then r ∷ enabled_only rs else enabled_only rs

unfoldable pub find_id : ℕ → List Instance → Option Instance
find_id n [] = none
find_id n (r ∷ rs) = if r.id == n then some r else find_id n rs

unfoldable pub find_port : ℤ → List Instance → Option Instance
find_port p [] = none
find_port p (r ∷ rs) = if same_ℤ r.port p then some r else find_port p rs

unfoldable pub has_port : ℤ → List Instance → Bool
has_port p [] = false
has_port p (r ∷ rs) = if same_ℤ r.port p then true else has_port p rs

-- Another row than that of the id has the port.
unfoldable pub port_taken : ℕ → ℤ → List Instance → Bool
port_taken n p [] = false
port_taken n p (r ∷ rs) =
    if r.id == n then port_taken n p rs else if same_ℤ r.port p then true else port_taken n p rs

-- The UPDATE of all columns at one id.
unfoldable pub update_id : Instance → List Instance → List Instance
update_id i [] = []
update_id i (r ∷ rs) = if r.id == i.id then i ∷ update_id i rs else r ∷ update_id i rs

unfoldable pub delete_id : ℕ → List Instance → List Instance
delete_id n [] = []
delete_id n (r ∷ rs) = if r.id == n then delete_id n rs else r ∷ delete_id n rs

unfoldable pub delete_port : ℤ → List Instance → List Instance
delete_port p [] = []
delete_port p (r ∷ rs) = if same_ℤ r.port p then delete_port p rs else r ∷ delete_port p rs

unfoldable pub count_rows : List Instance → ℕ
count_rows [] = 0
count_rows (r ∷ rs) = 1 + count_rows rs
