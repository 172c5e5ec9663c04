-- ===== src/Scheduler/Update.antt =====
-- `UpdateTask`, against a restart of the scheduler from the overrides that it stores.
use popu_gate.Prelude.{
  ◌≡◌, refl, sym, ◌∙◌, Bool, true, false, Bool-cases, inl, inr, Str, List, [], Option, none, some,
  if◌then◌else◌,
}
use popu_gate.Model.Tables.{Tables, TaskOverride}
use popu_gate.Sys.{unknown_task, bad_cron}
use popu_gate.Sys.Keeps.{Keeps-now}
use popu_gate.Sys.Ensures.{
  Ensures, ensure_bind, ensure_pure, ensure_query, ensure_guard, ensure_write, ensure_after,
  ensure_weaken,
}
use popu_gate.SecretStore.{unix}
use popu_gate.Config.Maps.{assign, find, remove, find-assign, find-remove}
use popu_gate.Scheduler.Tasks.{Task, is_known}
use popu_gate.Scheduler.Runtime.{Scheduler, new_scheduler, start_with}
use popu_gate.Scheduler.Effective.{Distinct, start_with-find}
use popu_gate.Scheduler.Restart.{Standard, Agrees, apply-Agrees}
use popu_gate.Scheduler.Service.{
  get_override, upsert_override, delete_override, apply_task_runtime, or_enabled, changed, cron_ok,
  is_default, update_task,
}

module _ (accepts : Str → Bool) (no_empty : accepts [] ≡ false) (tasks : List Task)
    (distinct : Distinct tasks) where
  -- The scheduler runs every task as one that is started from these overrides does.
  abbrev pub AsRestarted : Scheduler → List (Str × TaskOverride) → Type 0
  AsRestarted s overrides =
      (l : Str)
      → find l s.entries ≡ find l (start_with accepts tasks overrides new_scheduler).entries

  module _ (s : Scheduler) (n : Str) (same : s.defaults ≡ tasks)
      (standard : Standard accepts no_empty tasks n) where
    -- The rows agree with the scheduler as it is, and as the change leaves it.
    abbrev Before : Tables → Type 0
    Before db = Agrees accepts no_empty tasks s db.task_overrides

    abbrev After : TaskOverride → Tables → Type 0
    After ovr db =
        Agrees accepts no_empty tasks (apply_task_runtime accepts n ovr s).0 db.task_overrides

    delete-After :
        (ovr : TaskOverride)
        → is_default n ovr ≡ true
        → Ensures Before (delete_override n) (λ _. After ovr) Before
    unfolding delete_override
    delete-After ovr e =
        ensure_write {Q = λ _. After ovr} (λ _. tt)
          (λ db. record db { task_overrides = remove n db.task_overrides })
          (λ db a.
            apply-Agrees accepts no_empty tasks s n ovr none db.task_overrides
              (remove n db.task_overrides) same standard (inl (e, refl))
              (λ l. find-remove l n db.task_overrides) a)
          (λ db a. a)

    upsert-After :
        (ovr : TaskOverride)
        → is_default n ovr ≡ false
        → Ensures Before (upsert_override n ovr) (λ _. After ovr) Before
    unfolding upsert_override
    upsert-After ovr e =
        ensure_after Keeps-now
          (λ t.
            let row : TaskOverride = record ovr { updated_at = unix t } in
            ensure_write {Q = λ _. After ovr} (λ _. tt)
              (λ db. record db { task_overrides = assign n row db.task_overrides })
              (λ db a.
                apply-Agrees accepts no_empty tasks s n ovr (some row) db.task_overrides
                  (assign n row db.task_overrides) same standard (inr (e, row, refl, refl, refl))
                  (λ l. find-assign l n row db.task_overrides) a)
              (λ db a. a))
          (λ db a. a)

    store-After :
        (ovr : TaskOverride)
        → Ensures Before
            (if is_default n ovr then delete_override n else upsert_override n ovr)
            (λ _. After ovr)
            Before
    store-After ovr = elim (Bool-cases (is_default n ovr)) [
      | inl e ↦ rw e (delete-After ovr e)
      | inr e ↦ rw e (upsert-After ovr e)
    ]

    update_task-Agrees :
        (parses : Str → Bool) (enabled : Option Bool) (schedule : Option Str)
        → Ensures Before
            (update_task accepts parses s n enabled schedule)
            (λ r db. Agrees accepts no_empty tasks r.0 db.task_overrides)
            Before
    unfolding update_task get_override
    update_task-Agrees parses enabled schedule =
        ensure_bind {R = λ _. Before}
          (ensure_guard (is_known n) unknown_task (λ db a e. a) (λ db a. a))
          (λ _.
            ensure_bind {R = λ _. Before}
              (ensure_guard (cron_ok parses schedule) bad_cron (λ db a e. a) (λ db a. a))
              (λ _.
                ensure_bind {R = λ _. Before}
                  (ensure_query (λ db. find n db.task_overrides) (λ db a. a) (λ db a. a))
                  (λ row.
                    let ovr = changed enabled schedule (or_enabled row) in
                    ensure_bind {R = λ _. After ovr} (store-After ovr)
                      (λ _. ensure_pure (apply_task_runtime accepts n ovr s) (λ db a. a)))))

    -- A change of a task survives a restart: where the scheduler runs every task as one does that
    -- is started from the stored overrides, this holds again behind UpdateTask, of the scheduler
    -- and the overrides that it leaves, and behind its errors. The tasks have distinct names; that
    -- of the call has its default schedule and is not off by default; and the cron library takes no
    -- empty schedule.
    pub update_task-AsRestarted :
        (parses : Str → Bool) (enabled : Option Bool) (schedule : Option Str)
        → Ensures
            (λ db. AsRestarted s db.task_overrides)
            (update_task accepts parses s n enabled schedule)
            (λ r db. AsRestarted r.0 db.task_overrides)
            (λ db. AsRestarted s db.task_overrides)
    update_task-AsRestarted parses enabled schedule =
        ensure_weaken
          (λ db a. λ l. a l ∙ start_with-find accepts tasks db.task_overrides l distinct)
          (update_task-Agrees parses enabled schedule)
          (λ r db a. λ l. a l ∙ sym (start_with-find accepts tasks db.task_overrides l distinct))
          (λ db a. λ l. a l ∙ sym (start_with-find accepts tasks db.task_overrides l distinct))
