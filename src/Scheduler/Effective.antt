-- ===== src/Scheduler/Effective.antt =====
-- The schedule that a task has by its default and its override.
use popu_gate.Prelude.{
  ◌≡◌, refl, ap, ◌∙◌, Bool, true, false, not, ◌&&◌, Str, str_eq, str_eq_iff, List, [], ◌∷◌, Option,
  none, some, if◌then◌else◌, arith, Bool-cases, inl, inr, All,
}
use popu_gate.Model.Tables.{TaskOverride}
use popu_gate.Config.Maps.{find, find-assign}
use popu_gate.Scheduler.Tasks.{Task, task_of}
use popu_gate.Scheduler.Runtime.{
  Scheduler, new_scheduler, add_task_to_cron, custom_or, schedule_task, start_task, start_tasks,
  start_with,
}

abbrev pub Absent : Str → List Task → Type 0
Absent n = All (λ t. str_eq t.name n ≡ false)

-- The names are distinct.
abbrev pub Distinct : List Task → Type 0
Distinct [] = Unit
Distinct (t ∷ ts) = Absent t.name ts × Distinct ts

-- The entry of a name behind a conditional.
if_entries :
    (l : Str) (b : Bool) (x y : Scheduler) (r : Option Str)
    → (b ≡ true → find l x.entries ≡ r)
    → (b ≡ false → find l y.entries ≡ r)
    → find l (if b then x else y).entries ≡ r
if_entries l true x y r h k = h refl
if_entries l false x y r h k = k refl

off_by_default :
    (fn off : Bool) (r : Option Str) → off ≡ true → none ≡ (if fn && not off then r else none)
off_by_default fn off r d = ground arith

on_by_default :
    (fn off : Bool) (r : Option Str)
    → fn ≡ true
    → off ≡ false
    → r ≡ (if fn && not off then r else none)
on_by_default fn off r f d = ground arith

off_by : (fn on : Bool) (r : Option Str) → on ≡ false → none ≡ (if fn && on then r else none)
off_by fn on r d = ground arith

on_by : (fn on : Bool) (r : Option Str) → fn ≡ true → on ≡ true → r ≡ (if fn && on then r else none)
on_by fn on r f d = ground arith

module _ (accepts : Str → Bool) where
  abbrev pub accepted : Str → Option Str
  accepted schedule = if accepts schedule then some schedule else none

  -- The schedule that a task runs by, if it runs: a task without a function does not; an override
  -- switches a task on or off, and may give it a schedule.
  abbrev pub effective : Task → Option TaskOverride → Option Str
  effective t none = if t.has_fn && not t.disabled then accepted t.schedule else none
  effective t (some ovr) =
      if t.has_fn && ovr.enabled then accepted (custom_or t.schedule ovr) else none

  abbrev pub effective_task : Option Task → Option TaskOverride → Option Str
  effective_task none ovr = none
  effective_task (some t) ovr = effective t ovr

  -- The schedule of a name, from the default tasks and the overrides.
  abbrev pub effective_of : List Task → List (Str × TaskOverride) → Str → Option Str
  effective_of tasks overrides n = effective_task (task_of n tasks) (find n overrides)

  pub add_task-find :
      (l name schedule : Str) (s : Scheduler)
      → find l (add_task_to_cron accepts name schedule s).entries
        ≡ (if str_eq name l && accepts schedule then some schedule else find l s.entries)
  unfolding add_task_to_cron
  add_task-find l name schedule s = ground (arith, find-assign l name schedule s.entries)

  add_task-other :
      (l name schedule : Str) (s : Scheduler)
      → str_eq name l ≡ false
      → find l (add_task_to_cron accepts name schedule s).entries ≡ find l s.entries
  add_task-other l name schedule s h = add_task-find l name schedule s ∙ rw h refl

  add_task_self :
      (l name schedule : Str) (s : Scheduler)
      → str_eq name l ≡ true
      → find l s.entries ≡ none
      → find l (add_task_to_cron accepts name schedule s).entries ≡ accepted schedule
  add_task_self l name schedule s h k = add_task-find l name schedule s ∙ rw (h, k) refl

  schedule_task-other :
      (l : Str) (t : Task) (o : Option TaskOverride) (s : Scheduler)
      → str_eq t.name l ≡ false
      → find l (schedule_task accepts t o s).entries ≡ find l s.entries
  unfolding schedule_task
  schedule_task-other l t none s h =
      if_entries l t.disabled s _ (find l s.entries) (λ _. refl)
        (λ _. add_task-other l t.name t.schedule s h)
  schedule_task-other l t (some ovr) s h =
      if_entries l ovr.enabled _ s (find l s.entries)
        (λ _. add_task-other l t.name (custom_or t.schedule ovr) s h) (λ _. refl)

  start_task-other :
      (l : Str) (overrides : List (Str × TaskOverride)) (t : Task) (s : Scheduler)
      → str_eq t.name l ≡ false
      → find l (start_task accepts overrides t s).entries ≡ find l s.entries
  unfolding start_task
  start_task-other l overrides t s h =
      if_entries l t.has_fn _ s (find l s.entries)
        (λ _. schedule_task-other l t (find t.name overrides) _ h) (λ _. refl)

  schedule_task_self :
      (l : Str) (t : Task) (o : Option TaskOverride) (s : Scheduler)
      → t.has_fn ≡ true
      → str_eq t.name l ≡ true
      → find l s.entries ≡ none
      → find l (schedule_task accepts t o s).entries ≡ effective t o
  unfolding schedule_task
  schedule_task_self l t none s f h k =
      if_entries l t.disabled s _ (effective t none)
        (λ d. k ∙ off_by_default t.has_fn t.disabled (accepted t.schedule) d)
        (λ d. add_task_self l t.name t.schedule s h k ∙ on_by_default t.has_fn t.disabled _ f d)
  schedule_task_self l t (some ovr) s f h k =
      if_entries l ovr.enabled _ s (effective t (some ovr))
        (λ d.
          add_task_self l t.name (custom_or t.schedule ovr) s h k
          ∙ on_by t.has_fn ovr.enabled _ f d)
        (λ d. k ∙ off_by t.has_fn ovr.enabled _ d)

  pub no_function : (t : Task) (o : Option TaskOverride) → t.has_fn ≡ false → none ≡ effective t o
  no_function t none f = ground arith
  no_function t (some ovr) f = ground arith

  start_task_self :
      (l : Str) (overrides : List (Str × TaskOverride)) (t : Task) (s : Scheduler)
      → str_eq t.name l ≡ true
      → find l s.entries ≡ none
      → find l (start_task accepts overrides t s).entries ≡ effective t (find l overrides)
  unfolding start_task
  start_task_self l overrides t s h k =
      let same : find t.name overrides ≡ find l overrides =
        ap (λ (n : Str). find n overrides) ((str_eq_iff t.name l).0 h) in
      if_entries l t.has_fn _ s (effective t (find l overrides))
        (λ f. schedule_task_self l t (find t.name overrides) _ f h k ∙ ap (effective t) same)
        (λ f. k ∙ no_function t (find l overrides) f)

  start_tasks-Absent :
      (l : Str) (overrides : List (Str × TaskOverride)) (ts : List Task) (s : Scheduler)
      → Absent l ts
      → find l (start_tasks accepts overrides ts s).entries ≡ find l s.entries
  unfolding start_tasks
  start_tasks-Absent l overrides [] s a = refl
  start_tasks-Absent l overrides (t ∷ ts) s a =
      start_tasks-Absent l overrides ts (start_task accepts overrides t s) a.1
      ∙ start_task-other l overrides t s a.0

  start_tasks-find :
      (l : Str) (overrides : List (Str × TaskOverride)) (ts : List Task) (s : Scheduler)
      → Distinct ts
      → find l s.entries ≡ none
      → find l (start_tasks accepts overrides ts s).entries ≡ effective_of ts overrides l
  unfolding start_tasks task_of
  start_tasks-find l overrides [] s d k = k
  start_tasks-find l overrides (t ∷ ts) s d k = elim (Bool-cases (str_eq t.name l)) [
    | inl e ↦ rw e (
        start_tasks-Absent l overrides ts (start_task accepts overrides t s)
          (rw (← (str_eq_iff t.name l).0 e) d.0)
        ∙ start_task_self l overrides t s e k)
    | inr e ↦ rw e (
        start_tasks-find l overrides ts (start_task accepts overrides t s) d.1
          (start_task-other l overrides t s e ∙ k))
  ]

  -- A start schedules every name as its default task and its override say.
  pub start_with-find :
      (tasks : List Task) (overrides : List (Str × TaskOverride)) (l : Str)
      → Distinct tasks
      → find l (start_with accepts tasks overrides new_scheduler).entries
        ≡ effective_of tasks overrides l
  unfolding start_with find
  start_with-find tasks overrides l d =
      start_tasks-find l overrides tasks (record new_scheduler { defaults = tasks }) d refl
