-- ===== src/UpstreamStore/Defs.antt =====
-- internal/store/upstream_store.go: the methods of the store.
use popu_gate.Prelude.{
  suc, ℤ, pos, Bool, true, false, not, ◌&&◌, ◌||◌, Str, List, [], ◌∷◌, Option, none, some,
  if◌then◌else◌,
}
use popu_gate.Model.Upstream.{Upstream}
use popu_gate.Model.Tables.{Tables}
use popu_gate.Sys.{
  M, query, exec, now, transaction, pure, guard, ◌>>=◌, ◌>>◌, not_found, invalid_upstream,
}
use popu_gate.SecretStore.{unix}
use popu_gate.UpstreamStore.Validate.{validate, weight_ok}
use popu_gate.UpstreamStore.Rows.{
  find, has_name, update_where, delete_where, append_row, enabled_only, known_kind, inserted,
  columns,
}

unfoldable pub list : M (List Upstream)
list = query (λ db. db.upstreams)

-- A missing row is no error: `none` is the nil of the source.
unfoldable pub get_by_name : Str → M (Option Upstream)
get_by_name name = query (λ db. find name db.upstreams)

unfoldable pub list_enabled : M (List Upstream)
list_enabled = query (λ db. enabled_only db.upstreams)

-- UNIQUE(name) and the two CHECK clauses of the schema.
abbrev pub refused : Upstream → List Upstream → Bool
refused u rows = has_name u.name rows || not (known_kind u.kind && weight_ok u.weight)

abbrev pub with_row : Upstream → Tables → Tables
with_row u db = record db {
  upstreams = append_row db.upstreams (inserted (suc db.upstream_seq) u);
  upstream_seq = suc db.upstream_seq;
}

-- The caller's struct comes back with its new id.
unfoldable pub create : Upstream → M Upstream
create u = do
  new_id ←
      exec
        (λ db. if refused u db.upstreams then none else some (suc db.upstream_seq, with_row u db))
  pure (record u { id = new_id })

unfoldable pub delete : Str → M (Unit {0})
delete name = exec (λ db. some (tt, record db { upstreams = delete_where name db.upstreams }))

abbrev pub with_update : Str → (Upstream → Upstream) → Tables → Tables
with_update name f db = record db { upstreams = update_where name f db.upstreams }

-- The CHECK clauses refuse the row; the result is whether RowsAffected is not 0.
unfoldable pub update : Str → Upstream → M (Unit {0})
update name u = do
  found ← exec (λ db.
      if has_name name db.upstreams && not (known_kind u.kind && weight_ok u.weight)
      then none
      else some (has_name name db.upstreams, with_update name (columns u) db))
  guard found (not_found name)

-- One UPDATE at a name, which need not have a row.
unfoldable pub set_where : Str → (Upstream → Upstream) → M (Unit {0})
set_where name f = exec (λ db. some (tt, with_update name f db))

abbrev pub checked : ℤ → Bool → ℤ → Str → Upstream → Upstream
checked at success latency message r = record r {
  last_check_at = at;
  last_check_ok = some success;
  latency_ms = latency;
  last_error = message;
  fail_count = if success then 0 else suc r.fail_count;
}

unfoldable pub update_health : Str → Bool → ℤ → Str → M (Unit {0})
unfolding set_where
update_health name success latency message = do
  t ← now
  set_where name (checked (unix t) success latency message)

abbrev pub toggled : Bool → Upstream → Upstream
toggled on r = record r { enabled = on; auto_disabled = false; auto_disabled_at = pos 0 }

unfoldable pub update_enabled : Str → Bool → M (Unit {0})
unfolding set_where
update_enabled name on = set_where name (toggled on)

abbrev pub disabled_at : ℤ → Upstream → Upstream
disabled_at at r = record r { enabled = false; auto_disabled = true; auto_disabled_at = at }

unfoldable pub disable_automatically : Str → ℤ → M (Unit {0})
unfolding set_where
disable_automatically name at = set_where name (disabled_at at)

abbrev pub recovered : Upstream → Upstream
recovered r = record r {
  enabled = true;
  auto_disabled = false;
  auto_disabled_at = pos 0;
  fail_count = 0;
}

unfoldable pub enable_automatically : Str → M (Unit {0})
unfolding set_where
enable_automatically name = set_where name recovered

abbrev pub unchecked : Upstream → Upstream
unchecked r = record r {
  last_check_at = pos 0;
  last_check_ok = none;
  latency_ms = pos 0;
  last_error = [];
  fail_count = 0;
}

unfoldable pub clear_health : Str → M (Unit {0})
unfolding set_where
clear_health name = set_where name unchecked

-- INSERT OR IGNORE: a row that breaks a constraint is left out; the result is whether one came in.
abbrev pub with_row_or_same : Upstream → Tables → Tables
with_row_or_same u db = if refused u db.upstreams then db else with_row u db

unfoldable pub insert_each : List Upstream → M (List Upstream)
insert_each [] = pure []
insert_each (u ∷ us) = do
  guard (validate u) invalid_upstream
  came ← exec (λ db. some (not (refused u db.upstreams), with_row_or_same u db))
  more ← insert_each us
  pure (if came then u ∷ more else more)

unfoldable pub create_multiple : List Upstream → M (List Upstream)
unfolding insert_each
create_multiple us = transaction (insert_each us)
