-- ===== src/InstanceStore/Defs.antt =====
-- The methods of internal/store/instance_store.go but `BackfillAPIPorts`.
use popu_gate.Prelude.{
  ℕ, suc, ℤ, Bool, true, false, ◌&&◌, ◌||◌, List, [], ◌∷◌, ◌++◌, Option, none, some, if◌then◌else◌,
}
use popu_gate.Model.Instance.{Instance}
use popu_gate.Model.Tables.{Tables}
use popu_gate.Sys.{M, query, exec, pure, ◌>>=◌}
use popu_gate.InstanceModel.Validate.{outside}
use popu_gate.InstanceStore.Rows.{
  order_by_port, enabled_only, find_id, find_port, has_port, port_taken, update_id, delete_id,
  delete_port, count_rows,
}

unfoldable pub count : M ℕ
unfolding count_rows
count = query (λ db. count_rows db.instances)

unfoldable pub list : M (List Instance)
unfolding order_by_port
list = query (λ db. order_by_port db.instances)

-- A missing row is no error: `none` is the nil of the source.
unfoldable pub get_by_id : ℕ → M (Option Instance)
unfolding find_id
get_by_id n = query (λ db. find_id n db.instances)

unfoldable pub get_by_port : ℤ → M (Option Instance)
unfolding find_port
get_by_port p = query (λ db. find_port p db.instances)

abbrev pub with_instance : Instance → Tables → Tables
with_instance i db = record db {
  instances = db.instances ++ record i { id = suc db.instance_seq } ∷ [];
  instance_seq = suc db.instance_seq;
}

-- UNIQUE(port) and its CHECK clause. The caller's struct comes back with its new id.
unfoldable pub create : Instance → M Instance
unfolding has_port
create i = do
  new_id ← exec (λ db.
      if has_port i.port db.instances || outside 1 65535 i.port
      then none
      else some (suc db.instance_seq, with_instance i db))
  pure (record i { id = new_id })

abbrev pub with_columns : Instance → Tables → Tables
with_columns i db = record db { instances = update_id i db.instances }

abbrev pub is_row : ℕ → Option Instance → Bool
is_row n none = false
is_row n (some r) = true

-- The constraints are checked only where the id has a row.
unfoldable pub update : Instance → M (Unit {0})
unfolding find_id port_taken update_id
update i = exec (λ db.
    if is_row i.id (find_id i.id db.instances)
      && (port_taken i.id i.port db.instances || outside 1 65535 i.port)
    then none
    else some (tt, with_columns i db))

unfoldable pub delete : ℤ → M (Unit {0})
unfolding delete_port
delete p = exec (λ db. some (tt, record db { instances = delete_port p db.instances }))

unfoldable pub delete_by_id : ℕ → M (Unit {0})
unfolding delete_id
delete_by_id n = exec (λ db. some (tt, record db { instances = delete_id n db.instances }))

unfoldable pub list_enabled : M (List Instance)
unfolding order_by_port enabled_only
list_enabled = query (λ db. order_by_port (enabled_only db.instances))
