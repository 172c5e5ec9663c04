-- ===== src/Sys/Ensures.antt =====
-- Total triples for methods: what holds of the tables behind a result, and behind an error.
use popu_gate.Prelude.{
  ◌≡◌, refl, Bool, true, false, Option, none, some, Bool-cases, inl, inr, if◌then◌else◌,
}
use popu_gate.Model.Tables.{Tables}
use popu_gate.Sys.Defs.{
  Error, Result, ok, err, Sys, M, pure, raise, query, exec, transaction, attempt, attempted,
  continue, ◌>>=◌, tick, guard, written, committed,
}
use popu_gate.Sys.Keeps.{Keeps}

abbrev pub Outcome :
    {A : Type 0} → (A → Tables → Type 0) → (Tables → Type 0) → Result A × Sys → Type 0
Outcome Q E (ok a, s) = Q a s.db
Outcome Q E (err e, s) = E s.db

-- From tables with `P`: `m` returns a value with `Q`, or an error, and the tables then have `E`.
pub record Ensures {A : Type 0} (P : Tables → Type 0) (m : M A) (Q : A → Tables → Type 0)
    (E : Tables → Type 0) : Type 0 where
  pub at : (s : Sys) → P s.db → Outcome Q E (m s)

module _ {P E : Tables → Type 0} where
  pub ensure_pure :
      {A : Type 0} {Q : A → Tables → Type 0} (a : A)
      → ((db : Tables) → P db → Q a db)
      → Ensures P (pure a) Q E
  ensure_pure a h = record { at = λ s p. h s.db p }

  pub ensure_raise :
      {A : Type 0} {Q : A → Tables → Type 0} (e : Error)
      → ((db : Tables) → P db → E db)
      → Ensures P (raise {A = A} e) Q E
  ensure_raise e h = record { at = λ s p. h s.db p }

  pub ensure_guard :
      {Q : Unit {0} → Tables → Type 0} (b : Bool) (e : Error)
      → ((db : Tables) → P db → b ≡ true → Q tt db)
      → ((db : Tables) → P db → E db)
      → Ensures P (guard b e) Q E
  ensure_guard true e h g = record { at = λ s p. h s.db p refl }
  ensure_guard false e h g = record { at = λ s p. g s.db p }

  pub ensure_query :
      {A : Type 0} {Q : A → Tables → Type 0} (f : Tables → A)
      → ((db : Tables) → P db → Q (f db) db)
      → ((db : Tables) → P db → E db)
      → Ensures P (query f) Q E
  unfolding query
  ensure_query {Q = Q} f h g = record {
    at = λ s p. elim (Bool-cases (s.env.fails s.ticks)) [
      | inl e ↦ rw e (g s.db p)
      | inr e ↦ rw e (h s.db p)
    ];
  }

written-Outcome :
    {A : Type 0} (Q : A → Tables → Type 0) (E : Tables → Type 0) (s : Sys) (r : Option (A × Tables))
    → E s.db
    → ((a : A) (db : Tables) → r ≡ some (a, db) → Q a db)
    → Outcome Q E (written s r)
written-Outcome Q E s none h k = h
written-Outcome Q E s (some (a, db)) h k = k a db refl

continue-Outcome :
    {A B : Type 0} (R : A → Tables → Type 0) (Q : B → Tables → Type 0) (E : Tables → Type 0)
    (r : Result A × Sys) (f : A → M B)
    → Outcome R E r
    → ((a : A) → Ensures (R a) (f a) Q E)
    → Outcome Q E (continue r f)
continue-Outcome R Q E (ok a, s) f h k = (k a).at s h
continue-Outcome R Q E (err e, s) f h k = h

kept-Outcome :
    {A B : Type 0} (P : Tables → Type 0) (Q : B → Tables → Type 0) (E : Tables → Type 0)
    (r : Result A × Sys) (f : A → M B)
    → P r.1.db
    → ((a : A) → Ensures P (f a) Q E)
    → ((db : Tables) → P db → E db)
    → Outcome Q E (continue r f)
kept-Outcome P Q E (ok a, s) f h k g = (k a).at s h
kept-Outcome P Q E (err e, s) f h k g = g s.db h

committed-Outcome :
    {A : Type 0} (Q : A → Tables → Type 0) (E F : Tables → Type 0) (before : Tables)
    (r : Result A × Sys)
    → E before
    → Outcome Q F r
    → Outcome Q E (committed before r)
committed-Outcome Q E F before (err e, s) h k = h
committed-Outcome Q E F before (ok a, s) h k = elim (Bool-cases (s.env.fails s.ticks)) [
  | inl e ↦ rw e h
  | inr e ↦ rw e k
]

module _ {P E : Tables → Type 0} where
  pub ensure_exec :
      {A : Type 0} {Q : A → Tables → Type 0} (f : Tables → Option (A × Tables))
      → ((db : Tables) → P db → (a : A) (db' : Tables) → f db ≡ some (a, db') → Q a db')
      → ((db : Tables) → P db → E db)
      → Ensures P (exec f) Q E
  unfolding exec
  ensure_exec {Q = Q} f h g = record {
    at = λ s p. elim (Bool-cases (s.env.fails s.ticks)) [
      | inl e ↦ rw e (g s.db p)
      | inr e ↦ rw e (written-Outcome Q E s (f s.db) (g s.db p) (h s.db p))
    ];
  }

  -- A write that breaks no constraint.
  pub ensure_write :
      {A : Type 0} {Q : A → Tables → Type 0} (n : Tables → A) (f : Tables → Tables)
      → ((db : Tables) → P db → Q (n db) (f db))
      → ((db : Tables) → P db → E db)
      → Ensures P (exec (λ db. some (n db, f db))) Q E
  unfolding exec
  ensure_write {Q = Q} n f h g = record {
    at = λ s p. elim (Bool-cases (s.env.fails s.ticks)) [
      | inl e ↦ rw e (g s.db p)
      | inr e ↦ rw e (h s.db p)
    ];
  }

  -- A write under a constraint.
  pub ensure_checked :
      {A : Type 0} {Q : A → Tables → Type 0} (bad : Tables → Bool) (n : Tables → A)
      (f : Tables → Tables)
      → ((db : Tables) → P db → bad db ≡ false → Q (n db) (f db))
      → ((db : Tables) → P db → E db)
      → Ensures P (exec (λ db. if bad db then none else some (n db, f db))) Q E
  unfolding exec
  ensure_checked {Q = Q} bad n f h g = record {
    at = λ s p. elim (Bool-cases (s.env.fails s.ticks)) [
      | inl e ↦ rw e (g s.db p)
      | inr e ↦ elim (Bool-cases (bad s.db)) [
        | inl b ↦ rw (e, b) (g s.db p)
        | inr b ↦ rw (e, b) (h s.db p b)
      ]
    ];
  }

  pub ensure_bind :
      {A B : Type 0} {R : A → Tables → Type 0} {Q : B → Tables → Type 0} {m : M A} {f : A → M B}
      → Ensures P m R E
      → ((a : A) → Ensures (R a) (f a) Q E)
      → Ensures P (m >>= f) Q E
  ensure_bind {R = R} {Q = Q} {m = m} {f = f} first next = record {
    at = λ s p. continue-Outcome R Q E (m s) f (first.at s p) next;
  }

  -- Behind a part that changes nothing of `P`.
  pub ensure_after :
      {A B : Type 0} {Q : B → Tables → Type 0} {m : M A} {f : A → M B}
      → Keeps P m
      → ((a : A) → Ensures P (f a) Q E)
      → ((db : Tables) → P db → E db)
      → Ensures P (m >>= f) Q E
  ensure_after {Q = Q} {m = m} {f = f} first next g = record {
    at = λ s p. kept-Outcome P Q E (m s) f (first.at s p) next g;
  }

  -- On an error the tables are those of the start.
  pub ensure_transaction :
      {A : Type 0} {Q : A → Tables → Type 0} {F : Tables → Type 0} {m : M A}
      → Ensures P m Q F
      → ((db : Tables) → P db → E db)
      → Ensures P (transaction m) Q E
  unfolding transaction
  ensure_transaction {Q = Q} {F = F} {m = m} body g = record {
    at = λ s p. elim (Bool-cases (s.env.fails s.ticks)) [
      | inl e ↦ rw e (g s.db p)
      | inr e ↦ rw e (committed-Outcome Q E F s.db (m (tick s)) (g s.db p) (body.at (tick s) p))
    ];
  }

attempted-Outcome :
    {A : Type 0} (Q : A → Tables → Type 0) (F : Tables → Type 0) (R : Option A → Tables → Type 0)
    (E : Tables → Type 0) (r : Result A × Sys)
    → Outcome Q F r
    → ((a : A) (db : Tables) → Q a db → R (some a) db)
    → ((db : Tables) → F db → R none db)
    → Outcome R E (attempted r)
attempted-Outcome Q F R E (ok a, s) h k g = k a s.db h
attempted-Outcome Q F R E (err e, s) h k g = g s.db h

-- An error becomes `none`.
pub ensure_attempt :
    {A : Type 0} {P : Tables → Type 0} {Q : A → Tables → Type 0} {F : Tables → Type 0}
    {R : Option A → Tables → Type 0} {E : Tables → Type 0} {m : M A}
    → Ensures P m Q F
    → ((a : A) (db : Tables) → Q a db → R (some a) db)
    → ((db : Tables) → F db → R none db)
    → Ensures P (attempt m) R E
unfolding attempt
ensure_attempt {Q = Q} {F = F} {R = R} {E = E} {m = m} body k g = record {
  at = λ s p. attempted-Outcome Q F R E (m s) (body.at s p) k g;
}

weaker :
    {A : Type 0} (Q R : A → Tables → Type 0) (E F : Tables → Type 0) (r : Result A × Sys)
    → ((a : A) (db : Tables) → Q a db → R a db)
    → ((db : Tables) → E db → F db)
    → Outcome Q E r
    → Outcome R F r
weaker Q R E F (ok a, s) h k o = h a s.db o
weaker Q R E F (err e, s) h k o = k s.db o

-- The rule of consequence.
pub ensure_weaken :
    {A : Type 0} {P P' : Tables → Type 0} {Q R : A → Tables → Type 0} {E F : Tables → Type 0}
    {m : M A}
    → ((db : Tables) → P' db → P db)
    → Ensures P m Q E
    → ((a : A) (db : Tables) → Q a db → R a db)
    → ((db : Tables) → E db → F db)
    → Ensures P' m R F
ensure_weaken {Q = Q} {R = R} {E = E} {F = F} {m = m} pre t h k = record {
  at = λ s p. weaker Q R E F (m s) h k (t.at s (pre s.db p));
}

kept : {A : Type 0} (I : Tables → Type 0) (r : Result A × Sys) → Outcome (λ _. I) I r → I r.1.db
kept I (ok a, s) h = h
kept I (err e, s) h = h

both : {A : Type 0} (I : Tables → Type 0) (r : Result A × Sys) → I r.1.db → Outcome (λ _. I) I r
both I (ok a, s) h = h
both I (err e, s) h = h

-- What a triple says of the tables behind the call, however it ended.
pub Ensures-state :
    {A : Type 0} {P I : Tables → Type 0} {m : M A}
    → Ensures P m (λ _. I) I
    → (s : Sys) → P s.db
    → I (m s).1.db
Ensures-state {I = I} {m = m} t s h = kept I (m s) (t.at s h)

-- A triple whose two ends are the invariant.
pub Ensures-Keeps :
    {A : Type 0} {I : Tables → Type 0} {m : M A} → Ensures I m (λ _. I) I → Keeps I m
Ensures-Keeps {I = I} {m = m} t = record { at = λ s h. kept I (m s) (t.at s h) }

pub Keeps-Ensures :
    {A : Type 0} {I : Tables → Type 0} {m : M A} → Keeps I m → Ensures I m (λ _. I) I
Keeps-Ensures {I = I} {m = m} k = record { at = λ s h. both I (m s) (k.at s h) }

-- A fact that is not about the tables, taken out of the precondition.
pub ensure_under :
    {A : Type 0} {P : Tables → Type 0} {F : Type 0} {Q : A → Tables → Type 0} {E : Tables → Type 0}
    {m : M A}
    → (F → Ensures P m Q E)
    → Ensures (λ db. P db × F) m Q E
ensure_under t = record { at = λ s p. (t p.1).at s p.0 }
