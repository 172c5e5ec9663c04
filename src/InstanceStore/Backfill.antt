-- ===== src/InstanceStore/Backfill.antt =====
-- `BackfillAPIPorts` of internal/store/instance_store.go, from its read to its last write.
use popu_gate.Prelude.{ℕ, ◌≡◌, refl, ap, ◌∙◌, List, [], ◌++◌, map, Bool-cases, inl, inr, All}
use mathlib.Core.Path.{subst}
use popu_gate.Model.Instance.{Instance}
use popu_gate.Sys.{Sys, Result, tick, query}
use popu_gate.InstanceStore.Rows.{order_by_port}
use popu_gate.InstanceStore.Defs.{list}
use popu_gate.InstanceStore.Ports.{
  api_port_base, used_ports, first_next, assigned, update_all, backfill_api_ports,
}
use popu_gate.InstanceStore.Assigned.{no_api_port, lacking, IsFresh, Distinct, assigned_ports}
use popu_gate.InstanceStore.Written.{Ended, Written, update_all-Written}
use popu_gate.InstanceStore.Rewritten.{
  DistinctIds, rewritten, updates-rewritten, order_by_port-DistinctIds, assigned-DistinctIds,
  front-DistinctIds, rewritten-nil,
}

-- The plan has exactly the instances without an API port, in order and changed in nothing else,
-- each with a port from the base on that no instance has as its port, metrics port or API port, and
-- no two with the same port.
abbrev pub IsPlan : List Instance → List Instance → Type 0
IsPlan is plan =
    (map no_api_port plan ≡ map no_api_port (lacking is)) × All (IsFresh is) plan × Distinct plan

-- The done part of a plan has been written over the rows of its ids, and nothing else.
abbrev pub Backfilled : Sys → Result ℕ × Sys → Type 0
Backfilled s r =
    (done : List Instance) × (rest : List Instance) × IsPlan (order_by_port s.db.instances)
      (done ++ rest)
    × (r.1.db ≡ record s.db { instances = rewritten done s.db.instances })
    × Ended s.env 0 done rest r

abbrev plan_of : List Instance → List Instance
plan_of is = assigned is (first_next is api_port_base) (used_ports is)

as_rewritten :
    (s : Sys) (r : Result ℕ × Sys)
    → DistinctIds (plan_of (order_by_port s.db.instances))
    → Written (plan_of (order_by_port s.db.instances)) 0 s r
    → Backfilled s r
as_rewritten s r d (done, rest, split, db, ended) = (
  done,
  rest,
  subst (IsPlan (order_by_port s.db.instances)) split
      (assigned_ports (order_by_port s.db.instances)),
  db
      ∙ ap (λ (rows : List Instance). record s.db { instances = rows })
          (updates-rewritten done s.db.instances
            (front-DistinctIds done rest (subst DistinctIds split d))),
  ended,
)

-- BackfillAPIPorts on a table with distinct ids: there is a plan of exactly the instances without an
-- API port, in the order of their ports and changed in nothing else, each with a port from the base
-- on that no instance has as its port, metrics port or API port, and no two with the same port. The
-- call writes a first part of the plan over the rows of the same ids, and nothing else. Where it
-- returns a count, the part is the whole plan, and the count is its length. It returns an error only
-- where its last call of the database failed, or where the update behind that part would break a
-- constraint of the table.
pub backfill_api_ports-Backfilled :
    (s : Sys) → DistinctIds s.db.instances → Backfilled s (backfill_api_ports s)
unfolding backfill_api_ports list query
backfill_api_ports-Backfilled s d =
    let is = order_by_port s.db.instances in
    let ids =
      assigned-DistinctIds is (first_next is api_port_base) (used_ports is)
        (order_by_port-DistinctIds s.db.instances d) in
    elim (Bool-cases (s.env.fails s.ticks)) [
      | inl e ↦ rw e (
        [],
        plan_of is,
        assigned_ports is,
        ap (λ (rows : List Instance). record s.db { instances = rows })
            (rewritten-nil s.db.instances),
        inl (s.ticks, refl, e),
      )
      | inr e ↦ rw e (
          as_rewritten s (update_all (plan_of is) 0 (tick s)) ids
            (update_all-Written (plan_of is) 0 (tick s)))
    ]
