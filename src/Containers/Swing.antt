-- ===== src/Containers/Swing.antt =====
-- The search for the temporary container of an instance, and the state of a swing.
use popu_gate.Prelude.{
  ℕ, ℤ, pos, ◌+ℤ◌, Bool, true, false, not, ◌&&◌, ◌||◌, Str, Option, none, some, if◌then◌else◌,
}
use popu_gate.Model.Instance.{Instance}
use popu_gate.Containers.Scan.{first_index}
use popu_gate.Containers.Names.{port_container, container_name}

-- startPort + i
abbrev pub swing_port : ℤ → ℕ → ℤ
swing_port primary k = primary +ℤ pos 10000 +ℤ pos k

-- The rounds of both searches.
abbrev pub swing_rounds : ℕ
swing_rounds = 100

abbrev pub found_port : ℤ → Option ℕ → ℤ × Bool
found_port primary none = (swing_port primary 0, false)
found_port primary (some k) = (swing_port primary k, true)

-- The test of a round: the container of this port is running.
abbrev pub swings : (Str → Bool) → ℤ → ℕ → Bool
swings running primary k = running (port_container (swing_port primary k))

-- `GetActiveSwingPortWithMap`, where `running` is the map of the running containers.
unfoldable pub active_swing_port : (Str → Bool) → Instance → ℤ × Bool
unfolding first_index
active_swing_port running i = found_port i.port (first_index (swings running i.port) 0 swing_rounds)

-- `ResolveActivePortsWithMap`
unfoldable pub resolve_active_ports : (Str → Bool) → Instance → ℤ × ℤ
resolve_active_ports running i =
    let (port, active) = active_swing_port running i in
    if active then (port, port +ℤ pos 100) else (i.port, i.metrics_port)

-- `GetActiveContainerNameWithMap`
unfoldable pub active_container_name : (Str → Bool) → Instance → Str
active_container_name running i =
    let (port, active) = active_swing_port running i in
    if active then port_container port else container_name i

-- The test of a round of `findFreeSwingPort`: `free` is `isPortFree`, and `running` is what
-- `IsInstanceRunning` answers.
abbrev pub is_candidate : (ℤ → Bool) → (Str → Bool) → ℤ → ℕ → Bool
is_candidate free running primary k =
    let port = swing_port primary k in
    free port && (free (port +ℤ pos 100) && not (running (port_container port)))

abbrev pub free_ports : ℤ → Option ℕ → ℤ × ℤ
free_ports primary none = (swing_port primary 0, primary +ℤ pos 10100)
free_ports primary (some k) = (swing_port primary k, swing_port primary k +ℤ pos 100)

-- `findFreeSwingPort`
unfoldable pub find_free_swing_port : (ℤ → Bool) → (Str → Bool) → ℤ → ℤ × ℤ
unfolding first_index
find_free_swing_port free running primary =
    free_ports primary (first_index (is_candidate free running primary) 0 swing_rounds)

-- `swingRoutingState`
pub record SwingRoutingState : Type 0 where
  pub target_port : ℤ
  pub target_metrics_port : ℤ
  pub target_container_name : Str
  pub draining_port : ℤ
  pub draining_metrics_port : ℤ
  pub draining_container_name : Str
  pub draining_running : Bool
  pub redirect_active : Bool
  pub temp_port : ℤ

-- What the host answers: `HasPortRedirect` (none is its error), `isPortFree`, `IsInstanceRunning`.
pub record Host : Type 0 where
  pub has_redirect : ℤ → ℤ → Option Bool
  pub port_free : ℤ → Bool
  pub instance_running : Str → Bool

-- The ports of the temporary container.
unfoldable pub temp_ports : Host → (Str → Bool) → Instance → ℤ × ℤ
unfolding active_swing_port find_free_swing_port
temp_ports host running i =
    let (port, active) = active_swing_port running i in
    if active
    then (port, port +ℤ pos 100)
    else find_free_swing_port host.port_free host.instance_running i.port

abbrev pub known : Option Bool → Bool
known none = false
known (some b) = b

-- Whether the traffic goes to the temporary container.
unfoldable pub is_redirected : Host → (Str → Bool) → Instance → ℤ → Bool
is_redirected host running i temp =
    known (host.has_redirect i.port temp)
    || running (port_container temp) && not (running (container_name i))

-- The state in front of the last correction: the target is the one that takes no traffic.
unfoldable pub routed : Bool → Instance → ℤ × ℤ → SwingRoutingState
routed redirected i (temp, temp_metrics) =
    if redirected
    then record {
      target_port = i.port;
      target_metrics_port = i.metrics_port;
      target_container_name = container_name i;
      draining_port = temp;
      draining_metrics_port = temp_metrics;
      draining_container_name = port_container temp;
      draining_running = false;
      redirect_active = true;
      temp_port = temp;
    }
    else record {
      target_port = temp;
      target_metrics_port = temp_metrics;
      target_container_name = port_container temp;
      draining_port = i.port;
      draining_metrics_port = i.metrics_port;
      draining_container_name = container_name i;
      draining_running = false;
      redirect_active = false;
      temp_port = temp;
    }

-- The last correction: with nothing to drain, the target is the primary container.
unfoldable pub corrected : (Str → Bool) → Instance → SwingRoutingState → SwingRoutingState
corrected running i s =
    if running s.draining_container_name then record s { draining_running = true } else record s {
      target_port = i.port;
      target_metrics_port = i.metrics_port;
      target_container_name = container_name i;
      draining_running = false;
    }

-- `resolveSwingRoutingState`: the state, and whether `RemovePortRedirect` was called at its end.
unfoldable pub resolve_swing_routing_state :
    Host → (Str → Bool) → Instance → SwingRoutingState × Bool
unfolding temp_ports is_redirected routed corrected
resolve_swing_routing_state host running i =
    let temp = temp_ports host running i in
    let s = corrected running i (routed (is_redirected host running i temp.0) i temp) in
    (s, not s.draining_running)
