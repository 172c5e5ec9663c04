-- ===== src/Sys/Both.antt =====
-- A triple and an invariant of the same method, together.
use popu_gate.Model.Tables.{Tables}
use popu_gate.Sys.Defs.{Result, ok, err, Sys, M}
use popu_gate.Sys.Keeps.{Keeps}
use popu_gate.Sys.Ensures.{Ensures, Outcome}

joined :
    {A : Type 0} (I : Tables → Type 0) (Q : A → Tables → Type 0) (E : Tables → Type 0)
    (r : Result A × Sys)
    → I r.1.db
    → Outcome Q E r
    → Outcome (λ a db. I db × Q a db) (λ db. I db × E db) r
joined I Q E (ok a, s) i o = (i, o)
joined I Q E (err e, s) i o = (i, o)

pub ensure_both :
    {A : Type 0} {I P E : Tables → Type 0} {Q : A → Tables → Type 0} {m : M A}
    → Keeps I m
    → Ensures P m Q E
    → Ensures (λ db. I db × P db) m (λ a db. I db × Q a db) (λ db. I db × E db)
ensure_both {I = I} {E = E} {Q = Q} {m = m} k t = record {
  at = λ s p. joined I Q E (m s) (k.at s p.0) (t.at s p.1);
}
