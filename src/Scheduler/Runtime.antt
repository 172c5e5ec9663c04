-- ===== src/Scheduler/Runtime.antt =====
-- The state of `Scheduler` of internal/scheduler/scheduler.go and the methods that change it.
use popu_gate.Prelude.{
  Bool, true, false, Str, str_eq, List, [], ◌∷◌, Option, none, some, if◌then◌else◌,
}
use popu_gate.Model.Tables.{TaskOverride}
use popu_gate.Config.Maps.{assign, find, remove}
use popu_gate.Scheduler.Tasks.{Task}

-- `Scheduler`: the entries of the cron by task name, each with the schedule that it runs by.
pub record Scheduler : Type 0 where
  pub entries : List (Str × Str)
  pub task_defs : List (Str × Task)
  pub defaults : List Task

-- `New`
abbrev pub new_scheduler : Scheduler
new_scheduler = record { entries = []; task_defs = []; defaults = [] }

-- The schedule of an override, or the default one.
abbrev pub custom_or : Str → TaskOverride → Str
custom_or schedule ovr = if str_eq ovr.custom_schedule [] then schedule else ovr.custom_schedule

-- The function `AddFunc` of the cron library: whether it accepts a schedule.
module _ (accepts : Str → Bool) where
  -- `addTaskToCron`: on an error of the cron there is no entry.
  unfoldable pub add_task_to_cron : Str → Str → Scheduler → Scheduler
  add_task_to_cron name schedule s =
      if accepts schedule then record s { entries = assign name schedule s.entries } else s

  -- The round of `StartWith` behind the update of the definitions.
  unfoldable pub schedule_task : Task → Option TaskOverride → Scheduler → Scheduler
  unfolding add_task_to_cron
  schedule_task t none s = if t.disabled then s else add_task_to_cron t.name t.schedule s
  schedule_task t (some ovr) s =
      if ovr.enabled then add_task_to_cron t.name (custom_or t.schedule ovr) s else s

  -- A round of the loop of `StartWith`.
  unfoldable pub start_task : List (Str × TaskOverride) → Task → Scheduler → Scheduler
  unfolding schedule_task
  start_task overrides t s =
      if t.has_fn
      then schedule_task t (find t.name overrides)
          (record s { task_defs = assign t.name t s.task_defs })
      else s

  unfoldable pub start_tasks : List (Str × TaskOverride) → List Task → Scheduler → Scheduler
  unfolding start_task
  start_tasks overrides [] s = s
  start_tasks overrides (t ∷ ts) s = start_tasks overrides ts (start_task overrides t s)

  -- `StartWith`
  unfoldable pub start_with : List Task → List (Str × TaskOverride) → Scheduler → Scheduler
  unfolding start_tasks
  start_with tasks overrides s = start_tasks overrides tasks (record s { defaults = tasks })

  -- `AddOrUpdateTask`: the state, and whether it returned no error.
  unfoldable pub add_or_update_task : Task → Scheduler → Scheduler × Bool
  unfolding add_task_to_cron
  add_or_update_task t s =
      let s' = record s {
        task_defs = assign t.name t s.task_defs;
        entries = remove t.name s.entries;
      } in
      if t.has_fn
      then (if str_eq t.schedule []
          then (s', true)
          else (add_task_to_cron t.name t.schedule s', accepts t.schedule))
      else (s, false)

-- `RemoveTask`
unfoldable pub remove_task : Str → Scheduler → Scheduler
remove_task name s = record s { entries = remove name s.entries }
