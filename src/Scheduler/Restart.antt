-- ===== src/Scheduler/Restart.antt =====
-- A change of a task at run time, against a restart from the stored overrides.
use popu_gate.Prelude.{
  ◌≡◌, sym, ap, ◌∙◌, Bool, true, false, ◌&&◌, Str, str_eq, str_eq_iff, List, [], Option, none, some,
  if◌then◌else◌, inl, inr, ◌⊎◌,
}
use popu_gate.Model.Tables.{TaskOverride}
use popu_gate.Config.Maps.{find, remove, find-remove}
use popu_gate.Scheduler.Tasks.{Task, task_of, default_schedule_for}
use popu_gate.Scheduler.Runtime.{Scheduler, custom_or, add_or_update_task, remove_task}
use popu_gate.Scheduler.Effective.{
  accepted, effective, effective_task, effective_of, add_task-find, no_function,
}
use popu_gate.Scheduler.Entries.{
  task_of-name, if_result, dropped, replaced, untouched, switched_on, switched_off, pick,
  pick-default, run_both, on_and_enabled, both_left, both_right, apply_if, same_if, each_branch,
}
use popu_gate.Scheduler.Service.{
  runtime_task, apply_override, apply_to, apply_task_runtime, is_default,
}

module _ (accepts : Str → Bool) (no_empty : accepts [] ≡ false) where
  -- The entries behind a change of one task: `same` is the entry where the task has no function.
  abbrev run_entry : Task → TaskOverride → Option Str → Option Str
  run_entry dt ovr same =
      if ovr.enabled
      then (if dt.has_fn then accepted accepts (custom_or dt.schedule ovr) else same)
      else none

  add_or_update-find :
      (l : Str) (t : Task) (s : Scheduler)
      → find l (add_or_update_task accepts t s).0.entries
        ≡ (if t.has_fn && str_eq t.name l then accepted accepts t.schedule else find l s.entries)
  unfolding add_or_update_task
  add_or_update-find l t s =
      let r =
        if t.has_fn && str_eq t.name l then accepted accepts t.schedule else find l s.entries in
      if_result l t.has_fn _ (s, false) r
        (λ f.
          if_result l (str_eq t.schedule []) _ _ r
            (λ e.
              find-remove l t.name s.entries
              ∙ dropped t.has_fn (str_eq t.name l) (accepts t.schedule) true t.schedule
                  (find l s.entries) none f
                  (ap accepts ((str_eq_iff t.schedule []).0 e) ∙ no_empty))
            (λ e.
              add_task-find accepts l t.name t.schedule _
              ∙ replaced t.has_fn (str_eq t.name l) (accepts t.schedule) true t.schedule
                  (find l s.entries) _ f (find-remove l t.name s.entries)))
        (λ f.
          untouched t.has_fn (str_eq t.name l) (accepts t.schedule) true t.schedule
            (find l s.entries) none f)

  apply_override-find :
      (l : Str) (dt : Task) (ovr : TaskOverride) (s : Scheduler)
      → find l (apply_override accepts dt ovr s).0.entries
        ≡ (if str_eq dt.name l then run_entry dt ovr (find l s.entries) else find l s.entries)
  unfolding apply_override
  apply_override-find l dt ovr s =
      if_result l ovr.enabled _ _
        (if str_eq dt.name l then run_entry dt ovr (find l s.entries) else find l s.entries)
        (λ e.
          add_or_update-find l (runtime_task dt (custom_or dt.schedule ovr)) s
          ∙ switched_on dt.has_fn (str_eq dt.name l) true ovr.enabled [] (find l s.entries)
              (accepted accepts (custom_or dt.schedule ovr)) e)
        (λ e.
          add_or_update-find l (runtime_task dt []) (remove_task dt.name s)
          ∙ switched_off dt.has_fn (str_eq dt.name l) (accepts []) ovr.enabled [] (find l s.entries)
              (find l (remove dt.name s.entries)) _ e no_empty (find-remove l dt.name s.entries))

  -- The scheduler runs the tasks that its defaults and the overrides say.
  abbrev pub Agrees : List Task → Scheduler → List (Str × TaskOverride) → Type 0
  Agrees tasks s overrides = (l : Str) → find l s.entries ≡ effective_of accepts tasks overrides l

  -- What the change stores for its task: nothing, or the override.
  abbrev pub Stored : TaskOverride → Option TaskOverride → Bool → Type 0
  Stored ovr stored b =
      ((b ≡ true) × (stored ≡ none))
      ⊎ ((b ≡ false)
          × (o : TaskOverride) × (stored ≡ some o)
          × (o.enabled ≡ ovr.enabled)
          × (o.custom_schedule ≡ ovr.custom_schedule))

  run_entry-effective :
      (dt : Task) (ovr : TaskOverride) (stored : Option TaskOverride) (same : Option Str) (n : Str)
      → Stored ovr stored (is_default n ovr)
      → dt.schedule ≡ default_schedule_for n
      → dt.disabled ≡ false
      → (dt.has_fn ≡ false → same ≡ none)
      → run_entry dt ovr same ≡ effective accepts dt stored
  run_entry-effective dt ovr stored same n (inl (b, st)) d off f =
      run_both ovr.enabled dt.has_fn (accepted accepts (custom_or dt.schedule ovr)) same f
      ∙ (ap (λ (c : Str). if dt.has_fn && ovr.enabled then accepted accepts c else none)
            (pick-default dt.schedule ovr.custom_schedule (default_schedule_for n) d
              (both_right ovr.enabled _ b))
          ∙ (on_and_enabled dt.has_fn ovr.enabled dt.disabled (accepted accepts dt.schedule)
                (both_left ovr.enabled _ b) off
              ∙ ap (effective accepts dt) (sym st)))
  run_entry-effective dt ovr stored same n (inr (b, o, st, en, cu)) d off f =
      run_both ovr.enabled dt.has_fn (accepted accepts (custom_or dt.schedule ovr)) same f
      ∙ (ap
            (λ (e : Bool).
              if dt.has_fn && e
              then accepted accepts (pick dt.schedule ovr.custom_schedule)
              else none)
            (sym en)
          ∙ (ap
                (λ (c : Str).
                  if dt.has_fn && o.enabled then accepted accepts (pick dt.schedule c) else none)
                (sym cu)
              ∙ ap (effective accepts dt) (sym st)))

  -- The task of the name has its default schedule, and is not off by default.
  abbrev pub Standard : List Task → Str → Type 0
  Standard tasks n =
      (t : Task)
      → task_of n tasks ≡ some t
      → (t.schedule ≡ default_schedule_for n) × (t.disabled ≡ false)

  -- The effective schedules behind a write of one override.
  effective_after :
      (tasks : List Task) (n l : Str) (overrides written : List (Str × TaskOverride))
      (stored : Option TaskOverride)
      → find l written ≡ (if str_eq n l then stored else find l overrides)
      → effective_of accepts tasks written l ≡ (
          if str_eq n l
          then effective_task accepts (task_of l tasks) stored
          else effective_of accepts tasks overrides l)
  effective_after tasks n l overrides written stored h =
      ap (effective_task accepts (task_of l tasks)) h
      ∙ apply_if (effective_task accepts (task_of l tasks)) (str_eq n l) stored (find l overrides)

  module _ (tasks : List Task) (s : Scheduler) (n : Str) (ovr : TaskOverride)
      (stored : Option TaskOverride) (overrides written : List (Str × TaskOverride)) where
    apply_to-find :
        (o : Option Task) (l : Str)
        → o ≡ task_of n tasks
        → Standard tasks n
        → Stored ovr stored (is_default n ovr)
        → find l written ≡ (if str_eq n l then stored else find l overrides)
        → find l s.entries ≡ effective_of accepts tasks overrides l
        → find l (apply_to accepts o ovr s).0.entries ≡ effective_of accepts tasks written l
    apply_to-find none l t std st w a =
        let at = λ (e : str_eq n l ≡ true).
          ap (λ (k : Str). task_of k tasks) (sym ((str_eq_iff n l).0 e)) ∙ sym t in
        a
        ∙ (same_if (str_eq n l) (effective_task accepts (task_of l tasks) stored) _ (λ e.
              ap (λ (o : Option Task). effective_task accepts o stored) (at e)
              ∙ sym (ap (λ (o : Option Task). effective_task accepts o (find l overrides)) (at e)))
            ∙ sym (effective_after tasks n l overrides written stored w))
    apply_to-find (some dt) l t std st w a =
        let named : dt.name ≡ n = (str_eq_iff dt.name n).0 (task_of-name n tasks dt (sym t)) in
        let at = λ (e : str_eq n l ≡ true).
          ap (λ (k : Str). task_of k tasks) (sym ((str_eq_iff n l).0 e)) ∙ sym t in
        apply_override-find l dt ovr s
        ∙ (ap
              (λ (k : Str).
                if str_eq k l then run_entry dt ovr (find l s.entries) else find l s.entries)
              named
            ∙ (each_branch (str_eq n l) (run_entry dt ovr (find l s.entries))
                  (effective_task accepts (task_of l tasks) stored) (find l s.entries)
                  (effective_of accepts tasks overrides l)
                  (λ e.
                    run_entry-effective dt ovr stored (find l s.entries) n st (std dt (sym t)).0
                      (std dt (sym t)).1
                      (λ f.
                        a
                        ∙ (ap (λ (o : Option Task). effective_task accepts o (find l overrides))
                              (at e)
                            ∙ sym (no_function accepts dt (find l overrides) f)))
                    ∙ ap (λ (o : Option Task). effective_task accepts o stored) (sym (at e)))
                  a
                ∙ sym (effective_after tasks n l overrides written stored w)))

    pub apply-Agrees :
        s.defaults ≡ tasks
        → Standard tasks n
        → Stored ovr stored (is_default n ovr)
        → ((l : Str) → find l written ≡ (if str_eq n l then stored else find l overrides))
        → Agrees tasks s overrides
        → Agrees tasks (apply_task_runtime accepts n ovr s).0 written
    unfolding apply_task_runtime
    apply-Agrees d std st w a = λ l.
        apply_to-find (task_of n s.defaults) l (ap (λ (ts : List Task). task_of n ts) d) std st
          (w l) (a l)
