-- ===== src/InstanceStore/Written.antt =====
-- What the second loop of `BackfillAPIPorts` writes, up to its first error.
use popu_gate.Prelude.{
  ℕ, suc, ◌+◌, ◌≡◌, refl, sym, ap, ◌∙◌, Bool, true, ◌&&◌, ◌||◌, List, [], ◌∷◌, ◌++◌, length, arith,
  Bool-cases, inl, inr, ◌⊎◌,
}
use popu_gate.Model.Instance.{Instance}
use popu_gate.Model.Tables.{Tables}
use popu_gate.Sys.{Env, Sys, Result, ok, err, exec, continue}
use popu_gate.InstanceModel.Validate.{outside}
use popu_gate.InstanceStore.Rows.{find_id, port_taken, update_id}
use popu_gate.InstanceStore.Defs.{update, with_columns, is_row}
use popu_gate.InstanceStore.Ports.{update_all}

-- The rows behind the updates, one after another.
abbrev pub updates : List Instance → List Instance → List Instance
updates [] rows = rows
updates (i ∷ is) rows = updates is (update_id i rows)

abbrev pub with_rows : List Instance → Tables → Tables
with_rows is db = record db { instances = updates is db.instances }

-- The update breaks a constraint of the table: another row has the port, or it is out of range.
abbrev pub violates : Instance → Tables → Bool
violates i db =
    is_row i.id (find_id i.id db.instances)
    && (port_taken i.id i.port db.instances || outside 1 65535 i.port)

abbrev pub Violated : List Instance → Tables → Type 0
Violated [] db = ⊥
Violated (i ∷ is) db = violates i db ≡ true

-- The last call up to a state failed.
abbrev pub LastFailed : Env → Sys → Type 0
LastFailed env s = (t : ℕ) × (s.ticks ≡ suc t) × (env.fails t ≡ true)

-- The loop ends at the end of the list, or where a call fails or a constraint is broken.
abbrev pub Ended : Env → ℕ → List Instance → List Instance → Result ℕ × Sys → Type 0
Ended env n done rest (ok m, s) = (rest ≡ []) × (m ≡ n + length done)
Ended env n done rest (err e, s) = LastFailed env s ⊎ Violated rest s.db

-- The updates up to the end of the loop have been written, and nothing else.
abbrev pub Written : List Instance → ℕ → Sys → Result ℕ × Sys → Type 0
Written is n s r =
    (done : List Instance) × (rest : List Instance) × (is ≡ done ++ rest)
    × (r.1.db ≡ with_rows done s.db)
    × Ended s.env n done rest r

-- One update: it is written, or an error leaves the tables alone.
abbrev Stepped : Instance → Sys → Result (Unit {0}) × Sys → Type 0
Stepped i s (ok u, s') = (s'.env ≡ s.env) × (s'.db ≡ with_columns i s.db)
Stepped i s (err e, s') = (s'.db ≡ s.db) × (LastFailed s.env s' ⊎ (violates i s.db ≡ true))

update-Stepped : (i : Instance) (s : Sys) → Stepped i s (update i s)
unfolding update exec
update-Stepped i s = elim (Bool-cases (s.env.fails s.ticks)) [
  | inl e ↦ rw e (refl, inl (s.ticks, refl, e))
  | inr e ↦ elim (Bool-cases (violates i s.db)) [
    | inl v ↦ rw (e, v) (refl, inr v)
    | inr v ↦ rw (e, v) (refl, refl)
  ]
]

later_Ended :
    (i : Instance) (rest : List Instance) (n : ℕ) (s s' : Sys) (done : List Instance)
    (r : Result ℕ × Sys)
    → s'.env ≡ s.env
    → Ended s'.env (suc n) done rest r
    → Ended s.env n (i ∷ done) rest r
later_Ended i rest n s s' done (ok m, t) e (end, count) = (end, omega (arith, count))
later_Ended i rest n s s' done (err x, t) e (inl (k, last, h)) =
    inl (k, last, ap (λ (env : Env). env.fails k) (sym e) ∙ h)
later_Ended i rest n s s' done (err x, t) e (inr v) = inr v

stopped :
    (i : Instance) (is : List Instance) (s s' : Sys)
    → s'.db ≡ s.db
    → LastFailed s.env s' ⊎ (violates i s.db ≡ true)
    → LastFailed s.env s' ⊎ Violated (i ∷ is) s'.db
stopped i is s s' d (inl h) = inl h
stopped i is s s' d (inr v) = inr (ap (violates i) d ∙ v)

-- The first update with the rest of the loop.
onto_Written :
    (i : Instance) (is : List Instance) (n : ℕ) (s s' : Sys) (r : Result ℕ × Sys)
    → s'.env ≡ s.env
    → s'.db ≡ with_columns i s.db
    → Written is (suc n) s' r
    → Written (i ∷ is) n s r
onto_Written i is n s s' r e d (done, rest, split, db, ended) = (
  i ∷ done,
  rest,
  ap (◌∷◌ i) split,
  db ∙ ap (with_rows done) d,
  later_Ended i rest n s s' done r e ended,
)

continue-Written :
    (i : Instance) (is : List Instance) (n : ℕ) (s : Sys) (r : Result (Unit {0}) × Sys)
    → Stepped i s r
    → ((s' : Sys) → Written is (suc n) s' (update_all is (suc n) s'))
    → Written (i ∷ is) n s (continue r (λ _. update_all is (suc n)))
continue-Written i is n s (ok u, s') (e, d) h =
    onto_Written i is n s s' (update_all is (suc n) s') e d (h s')
continue-Written i is n s (err e, s') (d, why) h = ([], i ∷ is, refl, d, stopped i is s s' d why)

pub update_all-Written : (is : List Instance) (n : ℕ) (s : Sys) → Written is n s (update_all is n s)
unfolding update_all
update_all-Written [] n s = ([], [], refl, refl, (refl, omega arith))
update_all-Written (i ∷ is) n s =
    continue-Written i is n s (update i s) (update-Stepped i s) (update_all-Written is (suc n))
