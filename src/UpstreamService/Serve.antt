-- ===== src/UpstreamService/Serve.antt =====
-- Sequences of requests and health checks, under the invariant of the upstreams.
use popu_gate.Prelude.{Bool, Str, List, [], ◌∷◌}
use popu_gate.Model.Upstream.{Upstream}
use popu_gate.Sys.{M, Sys, pure, ◌>>◌}
use popu_gate.Sys.Keeps.{Keeps, Keeps-bind, Keeps-pure}
use popu_gate.UpstreamService.Defs.{
  add, update, remove, toggle, test, add_multiple, run_initial_health_check, check_all_upstreams,
}
use popu_gate.UpstreamService.Rules.{IsValid}
use popu_gate.UpstreamService.Valid.{add-IsValid}
use popu_gate.UpstreamService.Changes.{
  update-IsValid, remove-IsValid, toggle-IsValid, initial_check-IsValid, test-IsValid,
}
use popu_gate.UpstreamService.Health.{check_all-IsValid}
use popu_gate.UpstreamService.Batch.{add_multiple-IsValid}

-- One call of the service. The check that `Add` starts in the background is a call of its own,
-- which may stand anywhere in a sequence.
pub data Request : Type 0 where
  add_one : Upstream → Request
  add_many : List Upstream → Request
  initial_check : Str → Upstream → Request
  change : Str → Upstream → Request
  drop : Str → Request
  switch : Str → Bool → Request
  test_one : Str → Request
  check_all : Request

unfoldable pub handle : Request → M (Unit {0})
handle (add_one u) = do add u; pure tt
handle (add_many us) = do add_multiple us; pure tt
handle (initial_check n u) = run_initial_health_check n u
handle (change n u) = update n u
handle (drop n) = remove n
handle (switch n on) = toggle n on
handle (test_one n) = do test n; pure tt
handle check_all = check_all_upstreams

-- The requests one after another, each from the state that the last one left, error or not.
unfoldable pub serve : List Request → Sys → Sys
serve [] s = s
serve (r ∷ rs) s = serve rs (handle r s).1

handle-IsValid : (r : Request) → Keeps IsValid (handle r)
unfolding handle
handle-IsValid (add_one u) = Keeps-bind (add-IsValid u) (λ _. Keeps-pure tt)
handle-IsValid (add_many us) = Keeps-bind (add_multiple-IsValid us) (λ _. Keeps-pure tt)
handle-IsValid (initial_check n u) = initial_check-IsValid n u
handle-IsValid (change n u) = update-IsValid n u
handle-IsValid (drop n) = remove-IsValid n
handle-IsValid (switch n on) = toggle-IsValid n on
handle-IsValid (test_one n) = Keeps-bind (test-IsValid n) (λ _. Keeps-pure tt)
handle-IsValid check_all = check_all-IsValid

-- From tables where the upstreams have distinct names and every row passes `Validate`, is not both
-- enabled and automatically disabled, and is no enabled shadowsocks upstream while the
-- Middle-Proxy is on, every sequence of requests and health checks, in any environment of failing
-- calls and test results, leads to tables where this holds again.
pub handle_all-IsValid : (rs : List Request) (s : Sys) → IsValid s.db → IsValid (serve rs s).db
unfolding serve
handle_all-IsValid [] s h = h
handle_all-IsValid (r ∷ rs) s h = handle_all-IsValid rs (handle r s).1 ((handle-IsValid r).at s h)
