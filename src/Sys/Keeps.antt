-- ===== src/Sys/Keeps.antt =====
-- Invariants of the tables, for methods built by the monad.
use popu_gate.Prelude.{
  ◌≡◌, refl, Bool, true, false, Option, none, some, if◌then◌else◌, Bool-cases, Option-cases, inl,
  inr,
}
use popu_gate.Model.Tables.{Tables}
use popu_gate.Model.Upstream.{Upstream}
use popu_gate.Sys.Defs.{
  Error, Result, ok, err, Sys, M, pure, raise, query, exec, now, calendar, random_bytes,
  transaction, attempt, continue, ◌>>=◌, tick, guard, written, committed, attempted, test_upstream,
}

-- From any state, and whatever fails, `m` keeps the invariant `I` of the tables.
pub record Keeps {A : Type 0} (I : Tables → Type 0) (m : M A) : Type 0 where
  pub at : (s : Sys) → I s.db → I (m s).1.db

committed-keeps :
    {A : Type 0} (I : Tables → Type 0) (before : Tables) (r : Result A × Sys)
    → I before
    → I r.1.db
    → I (committed before r).1.db
committed-keeps I before (err e, s) h k = h
committed-keeps I before (ok a, s) h k = elim (Bool-cases (s.env.fails s.ticks)) [
  | inl e ↦ rw e h
  | inr e ↦ rw e k
]

attempted-keeps :
    {A : Type 0} (I : Tables → Type 0) (r : Result A × Sys) → I r.1.db → I (attempted r).1.db
attempted-keeps I (ok a, s) h = h
attempted-keeps I (err e, s) h = h

module _ {I : Tables → Type 0} where
  pub Keeps-pure : {A : Type 0} (a : A) → Keeps I (pure a)
  Keeps-pure a = record { at = λ s h. h }

  pub Keeps-raise : {A : Type 0} (e : Error) → Keeps I (raise {A = A} e)
  Keeps-raise e = record { at = λ s h. h }

  pub Keeps-guard : (b : Bool) (e : Error) → Keeps I (guard b e)
  Keeps-guard true e = record { at = λ s h. h }
  Keeps-guard false e = record { at = λ s h. h }

  pub Keeps-query : {A : Type 0} (f : Tables → A) → Keeps I (query f)
  unfolding query
  Keeps-query f = record {
    at = λ s h. elim (Bool-cases (s.env.fails s.ticks)) [ inl e ↦ rw e h | inr e ↦ rw e h ];
  }

  pub Keeps-now : Keeps I now
  unfolding now
  Keeps-now = record { at = λ s h. h }

  pub Keeps-calendar : Keeps I calendar
  unfolding calendar
  Keeps-calendar = record { at = λ s h. h }

  pub Keeps-test_upstream : (u : Upstream) → Keeps I (test_upstream u)
  unfolding test_upstream
  Keeps-test_upstream u = record { at = λ s h. h }

  pub Keeps-random_bytes : Keeps I random_bytes
  unfolding random_bytes
  Keeps-random_bytes = record {
    at = λ s h. elim (Option-cases (s.env.random s.ticks)) [
      | inl e ↦ rw (e, random_bytes) h
      | inr (b, e) ↦ rw (e, random_bytes) h
    ];
  }

  written-keeps :
      {A : Type 0} (s : Sys) (r : Option (A × Tables))
      → I s.db
      → ((a : A) (db : Tables) → r ≡ some (a, db) → I db)
      → I (written s r).1.db
  written-keeps s none h keep = h
  written-keeps s (some (a, db)) h keep = keep a db refl

  pub Keeps-exec :
      {A : Type 0} (f : Tables → Option (A × Tables))
      → ((db : Tables) → I db → (a : A) (db' : Tables) → f db ≡ some (a, db') → I db')
      → Keeps I (exec f)
  unfolding exec
  Keeps-exec f keep = record {
    at = λ s h. elim (Bool-cases (s.env.fails s.ticks)) [
      | inl e ↦ rw e h
      | inr e ↦ rw e (written-keeps s (f s.db) h (keep s.db h))
    ];
  }

  -- A write that breaks no constraint.
  pub Keeps-write :
      {A : Type 0} (n : Tables → A) (f : Tables → Tables)
      → ((db : Tables) → I db → I (f db))
      → Keeps I (exec (λ db. some (n db, f db)))
  unfolding exec
  Keeps-write n f keep = record {
    at = λ s h. elim (Bool-cases (s.env.fails s.ticks)) [
      | inl e ↦ rw e h
      | inr e ↦ rw e (keep s.db h)
    ];
  }

  -- A write under a constraint.
  pub Keeps-checked :
      {A : Type 0} (bad : Tables → Bool) (n : Tables → A) (f : Tables → Tables)
      → ((db : Tables) → I db → bad db ≡ false → I (f db))
      → Keeps I (exec (λ db. if bad db then none else some (n db, f db)))
  unfolding exec
  Keeps-checked bad n f keep = record {
    at = λ s h. elim (Bool-cases (s.env.fails s.ticks)) [
      | inl e ↦ rw e h
      | inr e ↦ elim (Bool-cases (bad s.db)) [
        | inl b ↦ rw (e, b) h
        | inr b ↦ rw (e, b) (keep s.db h b)
      ]
    ];
  }

  continue-keeps :
      {A B : Type 0} (r : Result A × Sys) (f : A → M B)
      → I r.1.db
      → ((a : A) → Keeps I (f a))
      → I (continue r f).1.db
  continue-keeps (ok a, s) f h keep = (keep a).at s h
  continue-keeps (err e, s) f h keep = h

  pub Keeps-bind :
      {A B : Type 0} {m : M A} {f : A → M B}
      → Keeps I m
      → ((a : A) → Keeps I (f a))
      → Keeps I (m >>= f)
  Keeps-bind {m = m} {f = f} first next = record {
    at = λ s h. continue-keeps (m s) f (first.at s h) next;
  }

  pub Keeps-transaction : {A : Type 0} {m : M A} → Keeps I m → Keeps I (transaction m)
  unfolding transaction
  Keeps-transaction {m = m} body = record {
    at = λ s h. elim (Bool-cases (s.env.fails s.ticks)) [
      | inl e ↦ rw e h
      | inr e ↦ rw e (committed-keeps I s.db (m (tick s)) h (body.at (tick s) h))
    ];
  }

  pub Keeps-attempt : {A : Type 0} {m : M A} → Keeps I m → Keeps I (attempt m)
  unfolding attempt
  Keeps-attempt {m = m} body = record { at = λ s h. attempted-keeps I (m s) (body.at s h) }

  pub Keeps-if :
      {A : Type 0} (b : Bool) {m n : M A} → Keeps I m → Keeps I n → Keeps I (if b then m else n)
  Keeps-if true p q = p
  Keeps-if false p q = q

pub ruleset keeps_rules = (
  Keeps-pure, Keeps-raise, Keeps-guard, Keeps-query, Keeps-now, Keeps-calendar, Keeps-random_bytes,
  Keeps-bind, Keeps-transaction, Keeps-attempt, Keeps-if,
)
