-- ===== src/Sys/Defs.antt =====
-- The environment and the monad of the methods.
use popu_gate.Prelude.{ℕ, suc, ℤ, Bool, true, false, Str, List, Option, none, some, if◌then◌else◌}
use popu_gate.Model.Tables.{Tables}
use popu_gate.Model.Upstream.{Upstream}

-- The errors of the services, told apart by what their messages say.
pub data Error : Type 0 where
  db_error constraint no_rows invalid_label too_many_secrets : Error
  already_exists not_found : Str → Error
  random_failed bad_key last_enabled over_limit bad_days invalid_upstream middle_proxy_on : Error
  instance_disabled not_written unknown_task bad_cron : Error

pub data Result (A : Type 0) : Type 0 where
  ok : A → Result A
  err : Error → Result A

-- `UpstreamTestResult`
pub record TestResult : Type 0 where
  pub success : Bool
  pub latency_ms : ℤ
  pub error : Str

-- What a test returns: a result, or a nil result beside an error with this text.
pub data Probe : Type 0 where
  tested : TestResult → Probe
  untested : Str → Probe

-- What lies outside the program. A call is answered by its number, so an environment fixes which
-- database calls fail, the bytes that crypto/rand gives (`none` is its error), the Unix time, and
-- what a connection test of an upstream finds. The calendar functions are those of package time.
pub record Env : Type 0 where
  pub fails : ℕ → Bool
  pub random : ℕ → Option (List ℕ)
  pub clock : ℕ → ℤ
  pub probe : ℕ → Upstream → Probe
  pub add_days : ℤ → ℤ → ℤ
  pub format_rfc3339 : ℤ → Str
  pub parse_rfc3339 : Str → Option ℤ
  pub parse_zulu : Str → Option ℤ
  pub parse_date : Str → Option ℤ

pub record Sys : Type 0 where
  pub env : Env
  pub ticks : ℕ
  pub db : Tables

abbrev pub M : Type 0 → Type 0
M A = Sys → Result A × Sys

abbrev pub tick : Sys → Sys
tick s = record s { ticks = suc s.ticks }

module _ {A : Type 0} where
  abbrev pub pure : A → M A
  pure a s = (ok a, s)

  abbrev pub raise : Error → M A
  raise e s = (err e, s)

  -- A read of the tables; it may fail.
  unfoldable pub query : (Tables → A) → M A
  query f s = if s.env.fails s.ticks then (err db_error, tick s) else (ok (f s.db), tick s)

  abbrev pub written : Sys → Option (A × Tables) → Result A × Sys
  written s none = (err constraint, tick s)
  written s (some (a, db)) = (ok a, record s { ticks = suc s.ticks; db = db })

  -- A write; it may fail, and `none` is a violated constraint. In both cases it writes nothing.
  unfoldable pub exec : (Tables → Option (A × Tables)) → M A
  exec f s = if s.env.fails s.ticks then (err db_error, tick s) else written s (f s.db)

  abbrev pub committed : Tables → Result A × Sys → Result A × Sys
  committed before (err e, s) = (err e, record s { db = before })
  committed before (ok a, s) =
      if s.env.fails s.ticks
      then (err db_error, record s { ticks = suc s.ticks; db = before })
      else (ok a, tick s)

  -- BeginTx, the body, Commit; on an error anywhere the deferred Rollback restores the tables.
  unfoldable pub transaction : M A → M A
  transaction m s =
      if s.env.fails s.ticks then (err db_error, tick s) else committed s.db (m (tick s))

  abbrev pub attempted : Result A × Sys → Result (Option A) × Sys
  attempted (ok a, s) = (ok (some a), s)
  attempted (err e, s) = (ok none, s)

  -- `if err != nil { continue }`: an error is turned into `none`.
  unfoldable pub attempt : M A → M (Option A)
  attempt m s = attempted (m s)

unfoldable pub now : M ℤ
now s = (ok (s.env.clock s.ticks), tick s)

-- The functions of package time.
unfoldable pub calendar : M Env
calendar s = (ok s.env, s)

-- `testUpstream`
unfoldable pub test_upstream : Upstream → M Probe
test_upstream u s = (ok (s.env.probe s.ticks u), tick s)

-- `rand.Read`
unfoldable pub random_bytes : M (List ℕ)
random_bytes s = elim (s.env.random s.ticks) [
  | none ↦ (err random_failed, tick s)
  | some b ↦ (ok b, tick s)
]

abbrev pub continue : {A B : Type 0} → Result A × Sys → (A → M B) → Result B × Sys
continue (ok a, s) f = f a s
continue (err e, s) f = (err e, s)

infixl 5 ◌>>=◌ ◌>>◌
abbrev pub ◌>>=◌ : {A B : Type 0} → M A → (A → M B) → M B
◌>>=◌ m f s = continue (m s) f

abbrev pub ◌>>◌ : {A B : Type 0} → M A → M B → M B
m >> k = m >>= λ _. k

-- `if bad { return err }`
abbrev pub guard : Bool → Error → M (Unit {0})
guard true e = pure tt
guard false e = raise e
