-- ===== src/Containers/Ports.antt =====
-- The ports of the temporary containers.
use popu_gate.Prelude.{
  ℕ, ◌<◌, ◌≡◌, refl, ℤ, pos, ◌+ℤ◌, Bool, true, false, not, ◌&&◌, Str, Option, none, some, arith,
  inl, inr, ◌⊎◌,
}
use popu_gate.Model.Instance.{Instance}
use popu_gate.Containers.Scan.{first_index, first_index_lem, Scanned, NoneIn}
use popu_gate.Containers.Names.{port_container}
use popu_gate.Containers.Swing.{
  found_port, free_ports, swing_port, swing_rounds, swings, active_swing_port, is_candidate,
  find_free_swing_port,
}

-- The container of every one of the hundred ports is stopped.
abbrev pub NoSwing : (Str → Bool) → ℤ → Type 0
NoSwing running primary = NoneIn (swings running primary) 0 swing_rounds

-- The first of the hundred ports whose container is running.
abbrev pub FirstSwing : (Str → Bool) → ℤ → ℤ → Type 0
FirstSwing running primary port =
    (k : ℕ) × (k < swing_rounds)
    × (port ≡ swing_port primary k)
    × (running (port_container port) ≡ true)
    × NoneIn (swings running primary) 0 k

-- What the search for the temporary container says of the running containers.
abbrev pub Swung : (Str → Bool) → ℤ → ℤ × Bool → Type 0
Swung running primary (port, true) = FirstSwing running primary port
Swung running primary (port, false) = (port ≡ swing_port primary 0) × NoSwing running primary

from_scan :
    (running : Str → Bool) (primary : ℤ) (r : Option ℕ)
    → Scanned (swings running primary) 0 swing_rounds r
    → Swung running primary (found_port primary r)
from_scan running primary none h = (refl, h)
from_scan running primary (some k) (a, b, c, d) = (k, b, refl, c, d)

-- The search answers with the first of the hundred ports from 10000 above the instance's port on
-- whose container is running; where none is, it answers the first port and that nothing swings.
pub active_swing_port-Swung :
    (running : Str → Bool) (i : Instance) → Swung running i.port (active_swing_port running i)
unfolding active_swing_port
active_swing_port-Swung running i =
    from_scan running i.port (first_index (swings running i.port) 0 swing_rounds)
      (first_index_lem (swings running i.port) swing_rounds 0)

-- A pair of ports that the search for free ports may answer with.
abbrev pub IsFreePair : (ℤ → Bool) → (Str → Bool) → ℤ × ℤ → Type 0
IsFreePair free running (port, metrics) =
    (free port ≡ true)
    × (free metrics ≡ true)
    × (running (port_container port) ≡ false)
    × (metrics ≡ port +ℤ pos 100)

abbrev pub Picked : (ℤ → Bool) → (Str → Bool) → ℤ → ℤ × ℤ → Type 0
Picked free running primary ports =
    IsFreePair free running ports
    ⊎ (NoneIn (is_candidate free running primary) 0 swing_rounds
        × (ports ≡ (swing_port primary 0, primary +ℤ pos 10100)))

both_true : (a b c : Bool) → (a && (b && not c)) ≡ true → (a ≡ true) × (b ≡ true) × (c ≡ false)
both_true a b c h = (ground arith, ground arith, ground arith)

from_free_scan :
    (free : ℤ → Bool) (running : Str → Bool) (primary : ℤ) (r : Option ℕ)
    → Scanned (is_candidate free running primary) 0 swing_rounds r
    → Picked free running primary (free_ports primary r)
from_free_scan free running primary none h = inr (h, refl)
from_free_scan free running primary (some k) (a, b, c, d) =
    let t =
      both_true (free (swing_port primary k)) (free (swing_port primary k +ℤ pos 100))
        (running (port_container (swing_port primary k))) c in
    inl (t.0, t.1, t.2, refl)

-- The ports for a new temporary container are free, the second a hundred above the first, and the
-- container of the first is not running; only where no round finds such ports, the answer is the
-- first port and the port 10100 above the primary one, of which nothing is known.
pub find_free_swing_port-Picked :
    (free : ℤ → Bool) (running : Str → Bool) (primary : ℤ)
    → Picked free running primary (find_free_swing_port free running primary)
unfolding find_free_swing_port
find_free_swing_port-Picked free running primary =
    from_free_scan free running primary
      (first_index (is_candidate free running primary) 0 swing_rounds)
      (first_index_lem (is_candidate free running primary) swing_rounds 0)
