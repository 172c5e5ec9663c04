-- ===== src/SecretStore/Rows.antt =====
-- The SQL statements of internal/store/secret_store.go on the rows of the table `secrets`.
pub mod Unique
pub mod Ids
use popu_gate.Prelude.{
  ℕ, zero, suc, ◌+◌, ℤ, pos, ◌+ℤ◌, Bool, true, false, not, ◌&&◌, Str, str_eq, List, [], ◌∷◌, map,
  Option, none, some, if◌then◌else◌, ◌==◌,
}
use popu_gate.Model.Secret.{Secret}
use popu_gate.Model.Traffic.{UserRow, HistoryRow}

-- WHERE label = ?
unfoldable pub find : Str → List Secret → Option Secret
find l [] = none
find l (r ∷ rs) = if str_eq r.label l then some r else find l rs

unfoldable pub has_label : Str → List Secret → Bool
has_label l [] = false
has_label l (r ∷ rs) = if str_eq r.label l then true else has_label l rs

-- UPDATE … WHERE label = ?
unfoldable pub update_where : Str → (Secret → Secret) → List Secret → List Secret
update_where l f [] = []
update_where l f (r ∷ rs) = (if str_eq r.label l then f r else r) ∷ update_where l f rs

-- The rows that such an UPDATE affects.
unfoldable pub rows_with : Str → List Secret → ℕ
rows_with l [] = 0
rows_with l (r ∷ rs) = (if str_eq r.label l then 1 else 0) + rows_with l rs

-- DELETE … WHERE label = ?
unfoldable pub delete_where : Str → List Secret → List Secret
delete_where l [] = []
delete_where l (r ∷ rs) = if str_eq r.label l then delete_where l rs else r ∷ delete_where l rs

-- INSERT, behind the rows that are there.
unfoldable pub append_row : List Secret → Secret → List Secret
append_row [] r = r ∷ []
append_row (x ∷ xs) r = x ∷ append_row xs r

abbrev pub one_if : Bool → ℕ
one_if b = if b then 1 else 0

-- SELECT COUNT(*) … WHERE enabled = 1
unfoldable pub enabled_rows : List Secret → ℕ
enabled_rows [] = 0
enabled_rows (r ∷ rs) = one_if r.enabled + enabled_rows rs

unfoldable pub one_of : Str → List Str → Bool
one_of l [] = false
one_of l (x ∷ xs) = if str_eq x l then true else one_of l xs

-- SELECT COUNT(*) … WHERE enabled = 1 AND label IN (…)
unfoldable pub enabled_rows_in : List Str → List Secret → ℕ
enabled_rows_in ls [] = 0
enabled_rows_in ls (r ∷ rs) = one_if (r.enabled && one_of r.label ls) + enabled_rows_in ls rs

-- SELECT label … WHERE enabled = 1
unfoldable pub enabled_labels : List Secret → List Str
enabled_labels [] = []
enabled_labels (r ∷ rs) = if r.enabled then r.label ∷ enabled_labels rs else enabled_labels rs

-- UPDATE secrets SET enabled = 0 WHERE id = ? AND enabled = 1
unfoldable pub disable_id : ℕ → List Secret → List Secret
disable_id i [] = []
disable_id i (r ∷ rs) = (if r.id == i then record r { enabled = false } else r) ∷ disable_id i rs

unfoldable pub enabled_with_id : ℕ → List Secret → ℕ
enabled_with_id i [] = 0
enabled_with_id i (r ∷ rs) = one_if ((r.id == i) && r.enabled) + enabled_with_id i rs

-- SUM(bytes_in), SUM(bytes_out) … GROUP BY label, at one label; 0 where it has no row.
unfoldable pub sum_in : Str → List UserRow → ℤ
sum_in l [] = pos 0
sum_in l (r ∷ rs) = if str_eq r.label l then r.bytes_in +ℤ sum_in l rs else sum_in l rs

unfoldable pub sum_out : Str → List UserRow → ℤ
sum_out l [] = pos 0
sum_out l (r ∷ rs) = if str_eq r.label l then r.bytes_out +ℤ sum_out l rs else sum_out l rs

-- The LEFT JOIN with the traffic of the label.
abbrev pub with_traffic : List UserRow → Secret → Secret
with_traffic users r = record r {
  traffic_in = sum_in r.label users;
  traffic_out = sum_out r.label users;
}

-- UPDATE traffic_user SET label = ? WHERE label = ?, and whether it breaks UNIQUE(label, instance_id).
unfoldable pub rename_users : Str → Str → List UserRow → List UserRow
rename_users old new [] = []
rename_users old new (r ∷ rs) =
    (if str_eq r.label old then record r { label = new } else r) ∷ rename_users old new rs

unfoldable pub has_user : Str → ℕ → List UserRow → Bool
has_user l i [] = false
has_user l i (r ∷ rs) = if str_eq r.label l && r.instance_id == i then true else has_user l i rs

unfoldable pub users_clash : Str → Str → List UserRow → List UserRow → Bool
users_clash old new [] rows = false
users_clash old new (r ∷ rs) rows =
    if str_eq r.label old && has_user new r.instance_id rows
    then true
    else users_clash old new rs rows

-- UPDATE traffic_history SET label = ? WHERE label = ?
unfoldable pub rename_history : Str → Str → List HistoryRow → List HistoryRow
rename_history old new [] = []
rename_history old new (r ∷ rs) =
    (if str_eq r.label old then record r { label = new } else r) ∷ rename_history old new rs
