-- ===== src/Examples/Tasks.antt =====
-- The scheduled tasks at concrete inputs.
use popu_gate.Prelude.{
  ◌≡◌, refl, sym, ap, Bool, true, false, not, Str, codes, str_eq, List, [], ◌∷◌, Option, none, some,
}
use popu_gate.Sys.Ensures.{Ensures}
use popu_gate.Config.Maps.{find}
use popu_gate.Scheduler.Tasks.{Task, task_row, task_of, default_schedule_for, schedule_or_empty}
use popu_gate.Scheduler.Runtime.{Scheduler, new_scheduler, start_with}
use popu_gate.Scheduler.Effective.{Distinct}
use popu_gate.Scheduler.Restart.{Standard}
use popu_gate.Scheduler.Service.{update_task}
use popu_gate.Scheduler.Update.{AsRestarted, update_task-AsRestarted}

-- Every schedule but the empty one.
abbrev not_empty : Str → Bool
not_empty schedule = not (str_eq schedule [])

-- Two of the default tasks, with their functions.
abbrev two_tasks : List Task
two_tasks =
    record (task_row "quota-check" "0 */5 * * * *" 0 false) { has_fn = true }
    ∷ record (task_row "auto-update" "0 0 4 * * *" 900 true) { has_fn = true }
    ∷ []

no_empty : not_empty [] ≡ false
unfolding str_eq
no_empty = refl

distinct : Distinct two_tasks
unfolding str_eq
distinct = ((refl, tt), (tt, tt))

abbrev started : Scheduler
started = start_with not_empty two_tasks [] new_scheduler

abbrev off_or_false : Option Task → Bool
off_or_false none = false
off_or_false (some t) = t.disabled

quota_check-Standard : Standard not_empty no_empty two_tasks (codes "quota-check")
unfolding default_schedule_for task_of str_eq
quota_check-Standard = λ t h. (ap schedule_or_empty (sym h), ap off_or_false (sym h))

update_task-AsRestarted_example :
    Ensures
      (λ db. AsRestarted not_empty no_empty two_tasks distinct started db.task_overrides)
      (update_task not_empty not_empty started
        (codes "quota-check")
        (some false)
        (some (codes "0 0 * * * *")))
      (λ r db. AsRestarted not_empty no_empty two_tasks distinct r.0 db.task_overrides)
      (λ db. AsRestarted not_empty no_empty two_tasks distinct started db.task_overrides)
unfolding start_with find str_eq
update_task-AsRestarted_example =
    update_task-AsRestarted not_empty no_empty two_tasks distinct started (codes "quota-check") refl
      quota_check-Standard not_empty (some false) (some (codes "0 0 * * * *"))
