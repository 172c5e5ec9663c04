-- ===== src/Scheduler/Service.antt =====
-- The overrides of internal/store/scheduler_store.go, and `UpdateTask` of
-- internal/service/scheduler_service.go.
use popu_gate.Prelude.{
  Bool, true, false, ◌&&◌, ◌||◌, Str, str_eq, [], Option, none, some, if◌then◌else◌, pos,
}
use popu_gate.Model.Tables.{TaskOverride}
use popu_gate.Sys.{M, pure, guard, query, exec, now, ◌>>=◌, ◌>>◌, unknown_task, bad_cron}
use popu_gate.SecretStore.{unix}
use popu_gate.Config.Maps.{assign, find, remove}
use popu_gate.Scheduler.Tasks.{Task, task_of, is_known, default_schedule_for, default_timeout_for}
use popu_gate.Scheduler.Runtime.{Scheduler, custom_or, add_or_update_task, remove_task}

-- `GetOverride`: a missing row is no error.
unfoldable pub get_override : Str → M (Option TaskOverride)
unfolding find
get_override name = query (λ db. find name db.task_overrides)

-- `UpsertOverride`, with the time of the call.
unfoldable pub upsert_override : Str → TaskOverride → M (Unit {0})
unfolding assign
upsert_override name ovr = do
  t ← now
  exec (λ db. some (
    tt,
    record db {
      task_overrides = assign name (record ovr { updated_at = unix t }) db.task_overrides;
    },
  ))

-- `DeleteOverride`
unfoldable pub delete_override : Str → M (Unit {0})
unfolding remove
delete_override name =
    exec (λ db. some (tt, record db { task_overrides = remove name db.task_overrides }))

-- The task that `applyTaskRuntime` makes of a default task.
abbrev pub runtime_task : Task → Str → Task
runtime_task dt schedule = record dt {
  schedule = schedule;
  timeout = default_timeout_for dt.name;
  disabled = false;
}

module _ (accepts : Str → Bool) where
  -- The body of the loop for the task of the name.
  unfoldable pub apply_override : Task → TaskOverride → Scheduler → Scheduler × Bool
  unfolding add_or_update_task remove_task
  apply_override dt ovr s =
      if ovr.enabled
      then add_or_update_task accepts (runtime_task dt (custom_or dt.schedule ovr)) s
      else add_or_update_task accepts (runtime_task dt []) (remove_task dt.name s)

  abbrev pub apply_to : Option Task → TaskOverride → Scheduler → Scheduler × Bool
  apply_to none ovr s = (s, true)
  apply_to (some dt) ovr s = apply_override dt ovr s

  -- `applyTaskRuntime`: the state, and whether it returned no error.
  unfoldable pub apply_task_runtime : Str → TaskOverride → Scheduler → Scheduler × Bool
  unfolding apply_override task_of
  apply_task_runtime name ovr s = apply_to (task_of name s.defaults) ovr s

-- `validateCronExpr`; `parses` is the parser of the cron library.
abbrev pub cron_ok : (Str → Bool) → Option Str → Bool
cron_ok parses none = true
cron_ok parses (some expr) = str_eq expr [] || parses expr

abbrev pub or_enabled : Option TaskOverride → TaskOverride
or_enabled none = record { enabled = true; custom_schedule = []; updated_at = pos 0 }
or_enabled (some ovr) = ovr

abbrev pub or_old : {A : Type 0} → Option A → A → A
or_old none old = old
or_old (some new) old = new

-- The override with the given changes.
abbrev pub changed : Option Bool → Option Str → TaskOverride → TaskOverride
changed enabled schedule ovr = record ovr {
  enabled = or_old enabled ovr.enabled;
  custom_schedule = or_old schedule ovr.custom_schedule;
}

-- The condition under which the override is dropped.
abbrev pub is_default : Str → TaskOverride → Bool
is_default name ovr =
    ovr.enabled
    && (str_eq ovr.custom_schedule [] || str_eq ovr.custom_schedule (default_schedule_for name))

-- `UpdateTask`: the scheduler behind it, and whether the runtime took the change.
unfoldable pub update_task :
    (accepts parses : Str → Bool)
    → Scheduler
    → Str
    → Option Bool
    → Option Str
    → M (Scheduler × Bool)
unfolding get_override upsert_override delete_override apply_task_runtime is_known
update_task accepts parses s name enabled schedule = do
  guard (is_known name) unknown_task
  guard (cron_ok parses schedule) bad_cron
  row ← get_override name
  let ovr = changed enabled schedule (or_enabled row)
  if is_default name ovr then delete_override name else upsert_override name ovr
  pure (apply_task_runtime accepts name ovr s)
