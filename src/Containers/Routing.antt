-- ===== src/Containers/Routing.antt =====
-- The state of a swing: the container that drains and the one that takes over.
use popu_gate.Prelude.{
  ℕ, ◌≡◌, ◌≢◌, ◌↔◌, ◌&&◌, ◌||◌, refl, sym, ◌∙◌, ap, ℤ, pos_part, neg_part, int_laws, Bool, true,
  false, not, Str, Option, none, some, arith, Bool-cases, inl, inr, ◌⊎◌,
}
use popu_gate.Model.Instance.{Instance}
use popu_gate.Containers.Names.{port_container, container_name, port_container_injective}
use popu_gate.Containers.Swing.{
  Host, SwingRoutingState, swing_port, found_port, free_ports, active_swing_port,
  find_free_swing_port, temp_ports, routed, corrected, known, is_redirected,
  resolve_swing_routing_state,
}

-- The port is one of those above the primary port.
abbrev pub IsSwingPort : ℤ → ℤ → Type 0
IsSwingPort primary port = (k : ℕ) × (port ≡ swing_port primary k)

found_port-IsSwingPort : (primary : ℤ) (r : Option ℕ) → IsSwingPort primary (found_port primary r).0
found_port-IsSwingPort primary none = (0, refl)
found_port-IsSwingPort primary (some k) = (k, refl)

free_ports-IsSwingPort : (primary : ℤ) (r : Option ℕ) → IsSwingPort primary (free_ports primary r).0
free_ports-IsSwingPort primary none = (0, refl)
free_ports-IsSwingPort primary (some k) = (k, refl)

active-IsSwingPort :
    (running : Str → Bool) (i : Instance) → IsSwingPort i.port (active_swing_port running i).0
unfolding active_swing_port
active-IsSwingPort running i = found_port-IsSwingPort i.port _

free-IsSwingPort :
    (free : ℤ → Bool) (running : Str → Bool) (primary : ℤ)
    → IsSwingPort primary (find_free_swing_port free running primary).0
unfolding find_free_swing_port
free-IsSwingPort free running primary = free_ports-IsSwingPort primary _

temp_ports-IsSwingPort :
    (host : Host) (running : Str → Bool) (i : Instance)
    → IsSwingPort i.port (temp_ports host running i).0
unfolding temp_ports
temp_ports-IsSwingPort host running i = elim (Bool-cases (active_swing_port running i).1) [
  | inl e ↦ rw e (active-IsSwingPort running i)
  | inr e ↦ rw e (free-IsSwingPort host.port_free host.instance_running i.port)
]

swing_port-ne : (p : ℤ) (k : ℕ) → swing_port p k ≢ p
swing_port-ne p k h = omega (int_laws, ap pos_part h, ap neg_part h)

temp-ne :
    (host : Host) (running : Str → Bool) (i : Instance)
    → port_container (temp_ports host running i).0 ≢ container_name i
unfolding container_name
temp-ne host running i h =
    let t = temp_ports-IsSwingPort host running i in
    swing_port-ne i.port t.0
      (sym t.1 ∙ port_container_injective (temp_ports host running i).0 i.port h)

-- With a container to drain, the traffic moves between the primary container and the temporary one.
abbrev pub Moves : Instance → SwingRoutingState → Type 0
Moves i s =
    (s.target_container_name ≢ s.draining_container_name)
    × (((s.redirect_active ≡ true)
          × (s.target_container_name ≡ container_name i)
          × (s.target_port ≡ i.port)
          × (s.draining_container_name ≡ port_container s.temp_port)
          × (s.draining_port ≡ s.temp_port))
        ⊎ ((s.redirect_active ≡ false)
            × (s.target_container_name ≡ port_container s.temp_port)
            × (s.target_port ≡ s.temp_port)
            × (s.draining_container_name ≡ container_name i)
            × (s.draining_port ≡ i.port)))

-- Without one, the primary container takes over.
abbrev pub Primary : Instance → SwingRoutingState → Type 0
Primary i s =
    (s.target_container_name ≡ container_name i)
    × (s.target_port ≡ i.port)
    × (s.target_metrics_port ≡ i.metrics_port)

-- The traffic goes to the temporary container: the host has the redirect, or only the temporary
-- one of the two containers is running.
abbrev pub Redirected : Host → (Str → Bool) → Instance → ℤ → Type 0
Redirected host running i temp =
    (host.has_redirect i.port temp ≡ some true)
    ⊎ ((running (port_container temp) ≡ true) × (running (container_name i) ≡ false))

-- The temporary port is that of the running temporary container, or a free one.
abbrev pub IsTemp : Host → (Str → Bool) → Instance → ℤ → Type 0
IsTemp host running i temp =
    (((active_swing_port running i).1 ≡ true) × (temp ≡ (active_swing_port running i).0))
    ⊎ (((active_swing_port running i).1 ≡ false)
        × (temp ≡ (find_free_swing_port host.port_free host.instance_running i.port).0))

-- What a swing does: `removed` is whether the redirect is taken away at once.
abbrev pub Swings : Host → (Str → Bool) → Instance → SwingRoutingState × Bool → Type 0
Swings host running i (s, removed) =
    IsTemp host running i s.temp_port
    × ((s.redirect_active ≡ true) ↔ Redirected host running i s.temp_port)
    × (s.draining_running ≡ running s.draining_container_name)
    × (removed ≡ not s.draining_running)
    × (s.draining_running ≡ true → Moves i s)
    × (s.draining_running ≡ false → Primary i s)

only_temp : (t p : Bool) → (t && not p) ≡ true → (t ≡ true) × (p ≡ false)
only_temp t p h = (ground arith, ground arith)

redirected_cases :
    (o : Option Bool) (t p : Bool)
    → ((known o || t && not p) ≡ true) ↔ ((o ≡ some true) ⊎ ((t ≡ true) × (p ≡ false)))
redirected_cases none t p =
    (λ h. inr (only_temp t p h), λ h. elim h [ inl e ↦ cc | inr (a, b) ↦ rw (a, b) refl ])
redirected_cases (some true) t p = (λ h. inl refl, λ h. refl)
redirected_cases (some false) t p =
    (λ h. inr (only_temp t p h), λ h. elim h [ inl e ↦ cc | inr (a, b) ↦ rw (a, b) refl ])

is_redirected-Redirected :
    (host : Host) (running : Str → Bool) (i : Instance) (temp : ℤ)
    → (is_redirected host running i temp ≡ true) ↔ Redirected host running i temp
unfolding is_redirected
is_redirected-Redirected host running i temp =
    redirected_cases (host.has_redirect i.port temp) (running (port_container temp))
      (running (container_name i))

temp_ports-IsTemp :
    (host : Host) (running : Str → Bool) (i : Instance)
    → IsTemp host running i (temp_ports host running i).0
unfolding temp_ports
temp_ports-IsTemp host running i = elim (Bool-cases (active_swing_port running i).1) [
  | inl e ↦ rw e (inl (refl, refl))
  | inr e ↦ rw e (inr (refl, refl))
]

routed-Moves :
    (redirected : Bool) (i : Instance) (temp : ℤ × ℤ)
    → port_container temp.0 ≢ container_name i
    → Moves i (routed redirected i temp)
unfolding routed
routed-Moves true i temp h = ((λ e. h (sym e)), inl (refl, refl, refl, refl, refl))
routed-Moves false i temp h = (h, inr (refl, refl, refl, refl, refl))

routed-flag :
    (redirected : Bool) (i : Instance) (temp : ℤ × ℤ)
    → ((routed redirected i temp).temp_port ≡ temp.0)
      × ((routed redirected i temp).redirect_active ≡ redirected)
unfolding routed
routed-flag true i temp = (refl, refl)
routed-flag false i temp = (refl, refl)

true_ne : true ≢ false
true_ne h = cc

corrected-Swings :
    (host : Host) (running : Str → Bool) (i : Instance) (s : SwingRoutingState)
    → IsTemp host running i s.temp_port
    → (s.redirect_active ≡ true) ↔ Redirected host running i s.temp_port
    → Moves i s
    → Swings host running i (corrected running i s, not (corrected running i s).draining_running)
unfolding corrected
corrected-Swings host running i s t r m = elim (Bool-cases (running s.draining_container_name)) [
  | inl e ↦ rw e (t, r, sym e, refl, λ _. m, λ h. absurd (true_ne h))
  | inr e ↦ rw e (t, r, sym e, refl, λ h. absurd (true_ne (sym h)), λ _. (refl, refl, refl))
]

-- A swing never starts the container that it drains. The temporary port is that of the running
-- temporary container, or else the free one that the search finds. The redirect counts as active
-- exactly where the host says so, or where the temporary container is running and the primary one
-- is not. Where the draining container is running, the target is the other one of the two
-- containers: the primary one under an active redirect, and else the temporary one. Where it is not
-- running, the target is the primary container and the redirect is taken away.
pub resolve_swing_routing_state-Swings :
    (host : Host) (running : Str → Bool) (i : Instance)
    → Swings host running i (resolve_swing_routing_state host running i)
unfolding resolve_swing_routing_state
resolve_swing_routing_state-Swings host running i =
    let temp = temp_ports host running i in
    let active = is_redirected host running i temp.0 in
    let flag = routed-flag active i temp in
    corrected-Swings host running i (routed active i temp)
      (rw flag.0 (temp_ports-IsTemp host running i))
      (rw (flag.0, flag.1) (is_redirected-Redirected host running i temp.0))
      (routed-Moves active i temp (temp-ne host running i))
