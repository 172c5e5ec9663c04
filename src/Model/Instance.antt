-- ===== src/Model/Instance.antt =====
-- internal/model/instance.go: a proxy instance, and the matching of its tags.
use popu_gate.Prelude.{
  ℕ, ℤ, Bool, true, false, ◌||◌, Str, codes, str_eq, List, [], ◌∷◌, if◌then◌else◌,
}

-- `Instance`, without the active ports, which no method reads.
pub record Instance : Type 0 where
  pub id : ℕ
  pub port : ℤ
  pub metrics_port : ℤ
  pub enabled : Bool
  pub label : Str
  pub tls_domain : Str
  pub tls_domains : Str
  pub fake_tls : Bool
  pub mask_host : Str
  pub mask_port : ℤ
  pub unknown_sni_action : Str
  pub exclusive_mask : Str
  pub tags : Str
  pub tcp_mss_enabled : Bool
  pub tcp_mss : ℤ
  pub tcp_mss_bulk : ℤ
  pub tls_fronting : Bool
  pub api_port : ℤ

-- `json.Unmarshal` of package encoding/json: what it leaves in a slice or a map of strings, and
-- whether it returned no error.
pub record Json : Type 0 where
  pub strings : Str → List Str
  pub masks : Str → List (Str × Str)
  pub masks_ok : Str → Bool

-- `GetMaskHost`
unfoldable pub get_mask_host : Instance → Str
get_mask_host i = if str_eq i.mask_host [] then i.tls_domain else i.mask_host

-- The inner loop of `TagsMatch`.
unfoldable pub has_tag : Str → List Str → Bool
has_tag t [] = false
has_tag t (u ∷ us) = str_eq t u || has_tag t us

-- The outer loop of `TagsMatch`.
unfoldable pub share_tag : List Str → List Str → Bool
share_tag [] secret_tags = false
share_tag (t ∷ ts) secret_tags = has_tag t secret_tags || share_tag ts secret_tags

-- `TagsMatch`
unfoldable pub tags_match : List Str → List Str → Bool
unfolding share_tag has_tag
tags_match [] secret_tags = true
tags_match (t ∷ ts) secret_tags = share_tag (t ∷ ts) secret_tags

module _ (json : Json) where
  -- `GetExclusiveMask`
  unfoldable pub get_exclusive_mask : Instance → List (Str × Str)
  get_exclusive_mask i =
      if str_eq i.exclusive_mask [] || str_eq i.exclusive_mask (codes "{}")
      then []
      else json.masks i.exclusive_mask

  -- `GetTLSDomains`
  unfoldable pub get_tls_domains : Instance → List Str
  get_tls_domains i =
      if str_eq i.tls_domains [] || str_eq i.tls_domains (codes "[]")
      then []
      else json.strings i.tls_domains

  -- `AllDomains`
  unfoldable pub all_domains : Instance → List Str
  unfolding get_tls_domains
  all_domains i = i.tls_domain ∷ get_tls_domains i

  -- `GetTags`
  unfoldable pub get_tags : Instance → List Str
  get_tags i = if str_eq i.tags [] || str_eq i.tags (codes "[]") then [] else json.strings i.tags
