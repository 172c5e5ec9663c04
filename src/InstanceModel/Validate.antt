-- ===== src/InstanceModel/Validate.antt =====
-- `Validate` of internal/model/instance.go.
use popu_gate.Prelude.{
  ℕ, ℤ, pos, ltb_ℤ, Bool, false, not, ◌&&◌, ◌||◌, Str, codes, str_eq, List, [], ◌∷◌, Option, none,
  some, if◌then◌else◌, ◌==◌,
}
use popu_gate.Model.Instance.{Instance, Json}
use popu_gate.SecretStore.Expiry.{parse_int}
use popu_gate.UpstreamNames.Text.{split_host_port}

-- The errors, told apart by what their messages say.
pub data Invalid : Type 0 where
  bad_port bad_metrics_port bad_api_port api_port_taken no_domain bad_mask_port : Invalid
  bad_tcp_mss bad_mss_bulk fronting_without_tls bad_sni_action : Invalid
  bad_masks empty_sni bad_target bad_target_port : Invalid

-- The instance as `Validate` leaves it, or its error.
pub data Checked : Type 0 where
  valid : Instance → Checked
  invalid : Invalid → Checked

abbrev pub eq_ℤ : ℤ → ℕ → Bool
eq_ℤ (pos n) m = n == m
eq_ℤ (ℤ.negsuc n) m = false

abbrev pub same_ℤ : ℤ → ℤ → Bool
same_ℤ (pos n) (pos m) = n == m
same_ℤ (ℤ.negsuc n) (ℤ.negsuc m) = n == m
same_ℤ (pos n) (ℤ.negsuc m) = false
same_ℤ (ℤ.negsuc n) (pos m) = false

-- x < lo || x > hi
abbrev pub outside : ℕ → ℕ → ℤ → Bool
outside lo hi z = ltb_ℤ z (pos lo) || ltb_ℤ (pos hi) z

abbrev pub sni_actions : List Str
sni_actions = codes "drop" ∷ codes "mask" ∷ codes "accept" ∷ codes "reject_handshake" ∷ []

unfoldable pub one_of : Str → List Str → Bool
one_of s [] = false
one_of s (t ∷ ts) = str_eq s t || one_of s ts

-- The guards on the ports.
unfoldable pub check_ports : Instance → Option Invalid
check_ports i =
    if outside 1 65535 i.port
    then some bad_port
    else if outside 1 65535 i.metrics_port
    then some bad_metrics_port
    else if not (eq_ℤ i.api_port 0) && outside 1 65535 i.api_port
    then some bad_api_port
    else if not (eq_ℤ i.api_port 0)
        && (same_ℤ i.api_port i.port || same_ℤ i.api_port i.metrics_port)
    then some api_port_taken
    else none

-- The guards on the segment sizes.
unfoldable pub check_mss : Instance → Option Invalid
check_mss i =
    if i.tcp_mss_enabled
    then (if outside 88 4096 i.tcp_mss
        then some bad_tcp_mss
        else if not (eq_ℤ i.tcp_mss_bulk 0) && outside 88 4096 i.tcp_mss_bulk
        then some bad_mss_bulk
        else none)
    else none

abbrev pub port_in_range : Option ℤ → Bool
port_in_range none = false
port_in_range (some p) = not (outside 1 65535 p)

abbrev pub check_target : Option (Str × Str) → Option Invalid
check_target none = some bad_target
check_target (some (host, port)) =
    if port_in_range (parse_int port) then none else some bad_target_port

abbrev pub first_error : Option Invalid → Option Invalid → Option Invalid
first_error (some e) rest = some e
first_error none rest = rest

-- The loop over the masks.
unfoldable pub check_masks : List (Str × Str) → Option Invalid
check_masks [] = none
check_masks ((sni, target) ∷ m) =
    if str_eq sni []
    then some empty_sni
    else first_error (check_target (split_host_port target)) (check_masks m)

abbrev pub has_masks : Instance → Bool
has_masks i = not (str_eq i.exclusive_mask []) && not (str_eq i.exclusive_mask (codes "{}"))

-- The assignments of defaults, each in front of the guards that read the field.
unfoldable pub with_defaults : Instance → Instance
with_defaults i = record i {
  mask_port = if eq_ℤ i.mask_port 0 then pos 443 else i.mask_port;
  tcp_mss = if eq_ℤ i.tcp_mss 0 then pos 88 else i.tcp_mss;
  unknown_sni_action =
      if str_eq i.unknown_sni_action [] then codes "mask" else i.unknown_sni_action;
}

abbrev pub outcome : Instance → Option Invalid → Checked
outcome i none = valid i
outcome i (some e) = invalid e

module _ (json : Json) where
  unfoldable pub check_exclusive_mask : Instance → Option Invalid
  unfolding check_masks
  check_exclusive_mask i =
      if has_masks i
      then (if json.masks_ok i.exclusive_mask
          then check_masks (json.masks i.exclusive_mask)
          else some bad_masks)
      else none

  -- The guards behind the ports, at the instance with its defaults.
  unfoldable pub check_rest : Instance → Option Invalid
  check_rest i =
      if str_eq i.tls_domain []
      then some no_domain
      else if outside 1 65535 i.mask_port
      then some bad_mask_port
      else first_error (check_mss i) (
          if i.tls_fronting && not i.fake_tls
          then some fronting_without_tls
          else if one_of i.unknown_sni_action sni_actions
          then check_exclusive_mask i
          else some bad_sni_action)

  -- `Validate`. A guard in front of a default does not read the field that it sets.
  unfoldable pub validate : Instance → Checked
  unfolding with_defaults
  validate i = let j = with_defaults i in outcome j (first_error (check_ports j) (check_rest j))
