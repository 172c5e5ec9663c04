-- ===== src/Examples/Instances.antt =====
-- The instances and their containers at concrete inputs.
use popu_gate.Prelude.{
  ℕ, ◌≡◌, refl, arith, ℤ, pos, ◌+ℤ◌, Bool, true, false, Str, codes, str_eq, List, [], ◌∷◌, none,
  some,
}
use popu_gate.Model.Instance.{Instance, Json}
use popu_gate.InstanceModel.Validate.{
  validate, with_defaults, one_of, check_ports, check_mss, check_masks, check_exclusive_mask,
  check_rest,
}
use popu_gate.InstanceModel.Accepted.{IsSound, validate-IsSound}
use popu_gate.InstanceStore.Ports.{is_used, next_free, backfill_api_ports}
use popu_gate.InstanceStore.Fresh.{next_free-unused}
use popu_gate.InstanceStore.Backfill.{Backfilled, backfill_api_ports-Backfilled}
use popu_gate.Containers.Names.{port_container}
use popu_gate.Containers.Swing.{
  Host, active_swing_port, find_free_swing_port, resolve_swing_routing_state,
}
use popu_gate.Containers.Ports.{Swung, Picked, active_swing_port-Swung, find_free_swing_port-Picked}
use popu_gate.Containers.Routing.{Swings, resolve_swing_routing_state-Swings}
use popu_gate.Containers.Config.{Engine, reload_instance_config}
use popu_gate.Containers.MiddleProxy.{IsCompatible, reload_instance_config-IsCompatible}
use popu_gate.Sys.Ensures.{Ensures}
use popu_gate.Sys.{Sys}
use popu_gate.Examples.Samples.{start, two_secrets}
use popu_gate.UpstreamService.Rules.{IsValid}

-- The JSON texts of the samples are none of their own: the parser finds nothing.
abbrev no_json : Json
no_json = record { strings = λ _. []; masks = λ _. []; masks_ok = λ _. true }

abbrev instance_at : ℕ → ℤ → ℤ → Instance
instance_at n p api = record {
  id = n;
  port = p;
  metrics_port = p +ℤ pos 1000;
  enabled = true;
  label = [];
  tls_domain = codes "example.org";
  tls_domains = [];
  fake_tls = true;
  mask_host = [];
  mask_port = pos 0;
  unknown_sni_action = [];
  exclusive_mask = [];
  tags = [];
  tcp_mss_enabled = true;
  tcp_mss = pos 0;
  tcp_mss_bulk = pos 0;
  tls_fronting = false;
  api_port = api;
}

abbrev three_instances : List Instance
three_instances =
    instance_at 1 (pos 443) (pos 0)
    ∷ instance_at 2 (pos 19091) (pos 0)
    ∷ instance_at 3 (pos 8443) (pos 19200)
    ∷ []

-- Only this container is running.
abbrev only_running : ℤ → Str → Bool
only_running p name = str_eq name (port_container p)

abbrev quiet_host : Host
quiet_host = record {
  has_redirect = λ p q. none;
  port_free = λ p. true;
  instance_running = λ n. false;
}

validate-IsSound_example : IsSound no_json (with_defaults (instance_at 1 (pos 443) (pos 0)))
unfolding ◌+ℤ◌ validate with_defaults one_of str_eq check_ports check_mss check_masks
    check_exclusive_mask check_rest
validate-IsSound_example =
    validate-IsSound no_json (instance_at 1 (pos 443) (pos 0))
      (with_defaults (instance_at 1 (pos 443) (pos 0))) refl

next_free-unused_example :
    is_used (next_free 4 3 (pos 3 ∷ pos 5 ∷ pos 4 ∷ [])) (pos 3 ∷ pos 5 ∷ pos 4 ∷ []) ≡ false
next_free-unused_example = next_free-unused 4 3 (pos 3 ∷ pos 5 ∷ pos 4 ∷ []) (omega arith)

abbrev with_instances : Sys
with_instances = record start {
  db = record two_secrets { instances = three_instances; instance_seq = 3 };
}

backfill_api_ports-Backfilled_example :
    Backfilled with_instances (backfill_api_ports with_instances)
backfill_api_ports-Backfilled_example =
    backfill_api_ports-Backfilled with_instances ((refl, (refl, tt)), ((refl, tt), (tt, tt)))

active_swing_port-Swung_example :
    Swung
      (only_running (pos 10444))
      (pos 443)
      (active_swing_port (only_running (pos 10444)) (instance_at 1 (pos 443) (pos 0)))
active_swing_port-Swung_example =
    active_swing_port-Swung (only_running (pos 10444)) (instance_at 1 (pos 443) (pos 0))

find_free_swing_port-Picked_example :
    Picked
      (λ p. true)
      (only_running (pos 10444))
      (pos 443)
      (find_free_swing_port (λ p. true) (only_running (pos 10444)) (pos 443))
find_free_swing_port-Picked_example =
    find_free_swing_port-Picked (λ p. true) (only_running (pos 10444)) (pos 443)

-- A host that sends the traffic of port 443 to the container of port 10443.
abbrev redirecting_host : Host
redirecting_host = record quiet_host { has_redirect = λ p q. some true }

resolve_swing_routing_state-Swings_example :
    Swings redirecting_host (only_running (pos 10443)) (instance_at 1 (pos 443) (pos 0)) (
      resolve_swing_routing_state redirecting_host
        (only_running (pos 10443))
        (instance_at 1 (pos 443) (pos 0)))
resolve_swing_routing_state-Swings_example =
    resolve_swing_routing_state-Swings redirecting_host (only_running (pos 10443))
      (instance_at 1 (pos 443) (pos 0))

-- Only the container of port 443 is running, and the disk takes every file.
abbrev one_engine : Engine
one_engine = record {
  list_running = some (only_running (pos 443));
  is_running = only_running (pos 443);
  saves = λ cfg. true;
}

reload_instance_config-IsCompatible_example :
    Ensures IsValid
      (reload_instance_config no_json [] one_engine 1)
      (λ r db. IsCompatible r.written × IsValid db)
      IsValid
reload_instance_config-IsCompatible_example =
    reload_instance_config-IsCompatible no_json [] one_engine 1
