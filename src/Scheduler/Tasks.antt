-- ===== src/Scheduler/Tasks.antt =====
-- `Task`, `DefaultTasks` and the look-ups in it, of internal/scheduler/scheduler.go.
use popu_gate.Prelude.{
  ℕ, ◌*◌, ℤ, pos, Bool, true, false, Str, String, codes, str_eq, List, [], ◌∷◌, Option, none, some,
  if◌then◌else◌, ltb_ℤ,
}

-- `Task`; its function is known only by whether it is set.
pub record Task : Type 0 where
  pub name : Str
  pub schedule : Str
  pub timeout : ℤ
  pub disabled : Bool
  pub has_fn : Bool

abbrev pub task_row : String → String → ℕ → Bool → Task
task_row n schedule seconds off = record {
  name = codes n;
  schedule = codes schedule;
  timeout = pos (seconds * 1_000_000_000);
  disabled = off;
  has_fn = false;
}

-- `DefaultTasks`
unfoldable pub default_tasks : List Task
default_tasks =
    task_row "traffic-flush" "0 */1 * * * *" 0 false
    ∷ task_row "quota-check" "0 */5 * * * *" 0 false
    ∷ task_row "expiry-check" "0 */5 * * * *" 0 false
    ∷ task_row "health-check" "0 */5 * * * *" 0 false
    ∷ task_row "telegram-report" "0 0 */6 * * *" 0 false
    ∷ task_row "replication-sync" "0 */1 * * * *" 180 false
    ∷ task_row "update-check" "0 0 */6 * * *" 0 false
    ∷ task_row "auto-update" "0 0 4 * * *" 900 true
    ∷ task_row "telemt-check" "0 0 */6 * * *" 30 false
    ∷ task_row "docker-host-check" "0 0 */6 * * *" 30 false
    ∷ task_row "token-cleanup" "0 0 */1 * * *" 0 false
    ∷ task_row "daily-backup" "0 0 3 * * *" 300 false
    ∷ task_row "backup-cleanup" "0 30 3 * * *" 0 false
    ∷ task_row "history-cleanup" "0 0 4 * * *" 0 false
    ∷ task_row "quota-reset" "0 0 0 1 * *" 120 false
    ∷ task_row "auto-rotate" "0 0 4 * * *" 0 true
    ∷ task_row "upstream-health" "0 */5 * * * *" 120 false
    ∷ task_row "fronting-update" "0 0 5 * * *" 300 false
    ∷ []

-- The first task of a name.
unfoldable pub task_of : Str → List Task → Option Task
task_of n [] = none
task_of n (t ∷ ts) = if str_eq t.name n then some t else task_of n ts

abbrev pub is_some_task : Option Task → Bool
is_some_task none = false
is_some_task (some t) = true

-- KnownTaskNames()[name]
unfoldable pub is_known : Str → Bool
unfolding task_of default_tasks
is_known n = is_some_task (task_of n default_tasks)

abbrev pub schedule_or_empty : Option Task → Str
schedule_or_empty none = []
schedule_or_empty (some t) = t.schedule

-- `DefaultScheduleFor`
unfoldable pub default_schedule_for : Str → Str
unfolding task_of default_tasks
default_schedule_for n = schedule_or_empty (task_of n default_tasks)

-- `defaultTaskTimeout`
abbrev pub default_task_timeout : ℤ
default_task_timeout = pos 30_000_000_000

abbrev pub timeout_or_default : Option Task → ℤ
timeout_or_default none = default_task_timeout
timeout_or_default (some t) = if ltb_ℤ (pos 0) t.timeout then t.timeout else default_task_timeout

-- `DefaultTimeoutFor`
unfoldable pub default_timeout_for : Str → ℤ
unfolding task_of default_tasks
default_timeout_for n = timeout_or_default (task_of n default_tasks)
