-- ===== src/InstanceModel/Accepted.antt =====
-- What `Validate` accepts.
use popu_gate.Prelude.{
  ℕ, ◌≡◌, refl, ◌≢◌, ℤ, pos, ◌≤ℤ◌, Bool, true, false, not, ◌&&◌, ◌||◌, Str, str_eq, str_eq_iff,
  List, [], Option, none, some, if◌then◌else◌, ◌⊎◌, inl, inr, arith, Bool-cases, Option-cases, All,
  ◌∷◌,
}
use mathlib.Core.Path.{subst}
use popu_gate.Model.Instance.{Instance, Json}
use popu_gate.SecretStore.Expiry.{parse_int}
use popu_gate.UpstreamNames.Text.{split_host_port}
use popu_gate.InstanceModel.Validate.{
  Invalid, bad_tcp_mss, bad_mss_bulk, bad_masks, valid, with_defaults, check_ports, check_mss,
  check_masks, check_target, bad_target_port, check_exclusive_mask, check_rest, validate, one_of,
  sni_actions, has_masks, outcome, first_error, outside, eq_ℤ, same_ℤ,
}

abbrev pub Between : ℕ → ℕ → ℤ → Type 0
Between lo hi z = (pos lo ≤ℤ z) × (z ≤ℤ pos hi)

-- A host and a port in range.
abbrev pub IsTarget : Option (Str × Str) → Type 0
IsTarget t =
    (host : Str) × (port : Str) × (n : ℤ) × (t ≡ some (host, port))
    × (parse_int port ≡ some n)
    × Between 1 65535 n

-- A server name and its target.
abbrev pub IsMask : Str × Str → Type 0
IsMask (sni, target) = (sni ≢ []) × IsTarget (split_host_port target)

-- An instance that the engine can be started with.
pub record IsSound (json : Json) (i : Instance) : Type 0 where
  pub port : Between 1 65535 i.port
  pub metrics_port : Between 1 65535 i.metrics_port
  pub api_port :
      (i.api_port ≡ pos 0)
      ⊎ (Between 1 65535 i.api_port × (i.api_port ≢ i.port) × (i.api_port ≢ i.metrics_port))
  pub tls_domain : i.tls_domain ≢ []
  pub mask_port : Between 1 65535 i.mask_port
  pub tcp_mss : i.tcp_mss_enabled ≡ true → Between 88 4096 i.tcp_mss
  pub mss_bulk :
      i.tcp_mss_enabled ≡ true → (i.tcp_mss_bulk ≡ pos 0) ⊎ Between 88 4096 i.tcp_mss_bulk
  pub fronting : i.tls_fronting ≡ true → i.fake_tls ≡ true
  pub sni_action : one_of i.unknown_sni_action sni_actions ≡ true
  pub masks :
      has_masks i ≡ true
      → (json.masks_ok i.exclusive_mask ≡ true) × All IsMask (json.masks i.exclusive_mask)

-- A guard of a chain that ends without an error was passed.
passed :
    (b : Bool) (e : Invalid) (r : Option Invalid)
    → (if b then some e else r) ≡ none
    → (b ≡ false) × (r ≡ none)
passed b e r h = (ground arith, ground arith)

passed_if :
    (b : Bool) (e : Invalid) (r : Option Invalid)
    → (if b then r else some e) ≡ none
    → (b ≡ true) × (r ≡ none)
passed_if b e r h = (ground arith, ground arith)

implied : (a b : Bool) → (a && not b) ≡ false → a ≡ true → b ≡ true
implied a b h e = ground arith

masks_sound :
    (on well : Bool) (r : Option Invalid)
    → (if on then (if well then r else some bad_masks) else none) ≡ none
    → on ≡ true
    → (well ≡ true) × (r ≡ none)
masks_sound on well r h e = passed_if well bad_masks r (rw e at h)

first_error-none : (a b : Option Invalid) → first_error a b ≡ none → (a ≡ none) × (b ≡ none)
first_error-none none b h = (refl, h)
first_error-none (some e) b h = cc

outside-Between : (lo hi : ℕ) (z : ℤ) → outside lo hi z ≡ false → Between lo hi z
outside-Between lo hi z h = (ground arith, ground arith)

eq_ℤ-zero : (z : ℤ) → eq_ℤ z 0 ≡ true → z ≡ pos 0
eq_ℤ-zero z h = ground arith

same_ℤ-ne : (a b : ℤ) → same_ℤ a b ≡ false → a ≢ b
same_ℤ-ne (pos n) b h e = ground arith
same_ℤ-ne (ℤ.negsuc n) b h e = ground arith

zero_or_Between :
    (lo hi : ℕ) (z : ℤ)
    → (not (eq_ℤ z 0) && outside lo hi z) ≡ false
    → (z ≡ pos 0) ⊎ Between lo hi z
zero_or_Between lo hi z h = elim (Bool-cases (eq_ℤ z 0)) [
  | inl e ↦ inl (eq_ℤ-zero z e)
  | inr e ↦ inr (outside-Between lo hi z (rw e at h))
]

-- The checks of the segment sizes, over the fields.
mss_sound :
    (on : Bool) (t m : ℤ)
    → (if on
        then (if outside 88 4096 t
            then some bad_tcp_mss
            else if not (eq_ℤ m 0) && outside 88 4096 m
            then some bad_mss_bulk
            else none)
        else none)
      ≡ none
    → on ≡ true
    → Between 88 4096 t × ((m ≡ pos 0) ⊎ Between 88 4096 m)
mss_sound on t m h e =
    let p = passed (outside 88 4096 t) bad_tcp_mss _ (rw e at h) in
    (outside-Between 88 4096 t p.0, zero_or_Between 88 4096 m (passed _ bad_mss_bulk none p.1).0)

str_eq-empty : (s : Str) → str_eq s [] ≡ false → s ≢ []
str_eq-empty s h e = ground (arith, str_eq_iff s [])

neither_left : (a b : Bool) → (a || b) ≡ false → a ≡ false
neither_left a b h = ground arith

neither_right : (a b : Bool) → (a || b) ≡ false → b ≡ false
neither_right a b h = ground arith

api_port_sound :
    (a p m : ℤ)
    → (not (eq_ℤ a 0) && outside 1 65535 a) ≡ false
    → (not (eq_ℤ a 0) && (same_ℤ a p || same_ℤ a m)) ≡ false
    → (a ≡ pos 0) ⊎ (Between 1 65535 a × (a ≢ p) × (a ≢ m))
api_port_sound a p m h k = elim (Bool-cases (eq_ℤ a 0)) [
  | inl e ↦ inl (eq_ℤ-zero a e)
  | inr e ↦ inr (
    outside-Between 1 65535 a (rw e at h),
    same_ℤ-ne a p (neither_left (same_ℤ a p) (same_ℤ a m) (rw e at k)),
    same_ℤ-ne a m (neither_right (same_ℤ a p) (same_ℤ a m) (rw e at k)),
  )
]

valid-outcome : (i j : Instance) (e : Option Invalid) → outcome i e ≡ valid j → (e ≡ none) × (i ≡ j)
valid-outcome i j none h = (refl, cc)
valid-outcome i j (some e) h = cc

denied : (b : Bool) → (if not b then none else some bad_target_port) ≡ none → b ≡ false
denied b h = ground arith

check_target-none : (t : Option (Str × Str)) → check_target t ≡ none → IsTarget t
check_target-none none h = cc
check_target-none (some (host, port)) h = elim (Option-cases (parse_int port)) [
  | inl e ↦ cc (let k : check_target (some (host, port)) ≡ some bad_target_port = rw e in k)
  | inr (n, e) ↦
      (host, port, n, refl, e, outside-Between 1 65535 n (denied (outside 1 65535 n) (rw e at h)))
]

check_masks_sound : (m : List (Str × Str)) → check_masks m ≡ none → All IsMask m
unfolding check_masks
check_masks_sound [] h = tt
check_masks_sound ((sni, target) ∷ m) h =
    let p = passed _ _ _ h in
    let q = first_error-none _ _ p.1 in
    (
      (str_eq-empty sni p.0, check_target-none (split_host_port target) q.0),
      check_masks_sound m q.1,
    )

module _ (json : Json) where
  -- An instance that the checks of the ports and the rest accept.
  checks-IsSound : (i : Instance) → check_ports i ≡ none → check_rest json i ≡ none → IsSound json i
  unfolding check_ports check_rest check_mss check_exclusive_mask
  checks-IsSound i h k =
      let p1 = passed _ _ _ h in
      let p2 = passed _ _ _ p1.1 in
      let p3 = passed _ _ _ p2.1 in
      let p4 = passed _ _ _ p3.1 in
      let r1 = passed _ _ _ k in
      let r2 = passed _ _ _ r1.1 in
      let r3 = first_error-none _ _ r2.1 in
      let r4 = passed _ _ _ r3.1 in
      let r5 = passed_if _ _ _ r4.1 in
      record {
        port = outside-Between 1 65535 i.port p1.0;
        metrics_port = outside-Between 1 65535 i.metrics_port p2.0;
        api_port = api_port_sound i.api_port i.port i.metrics_port p3.0 p4.0;
        tls_domain = λ e. str_eq-empty i.tls_domain r1.0 e;
        mask_port = outside-Between 1 65535 i.mask_port r2.0;
        tcp_mss = λ e. (mss_sound i.tcp_mss_enabled i.tcp_mss i.tcp_mss_bulk r3.0 e).0;
        mss_bulk = λ e. (mss_sound i.tcp_mss_enabled i.tcp_mss i.tcp_mss_bulk r3.0 e).1;
        fronting = λ e. implied i.tls_fronting i.fake_tls r4.0 e;
        sni_action = r5.0;
        masks = λ e.
            let m = masks_sound (has_masks i) (json.masks_ok i.exclusive_mask) _ r5.1 e in
            (m.0, check_masks_sound (json.masks i.exclusive_mask) m.1);
      }

  -- `Validate` accepts only sound instances: at every instance that it lets through, as it leaves
  -- it, the ports lie in 1..65535, the API port is off or differs from the two others, the domain
  -- is given, the segment sizes lie in 88..4096 where they are on, fronting has FakeTLS, the action
  -- is one of the four, and every mask is a host with a port in range.
  pub validate-IsSound : (i j : Instance) → validate json i ≡ valid j → IsSound json j
  unfolding validate
  validate-IsSound i j h =
      let v = valid-outcome (with_defaults i) j _ h in
      let p = first_error-none _ _ v.0 in
      subst (IsSound json) v.1 (checks-IsSound (with_defaults i) p.0 p.1)
