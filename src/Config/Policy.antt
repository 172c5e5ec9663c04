-- ===== src/Config/Policy.antt =====
-- What the access section of a configuration says about one label, against the secret itself.
use popu_gate.Prelude.{
  ◌≡◌, refl, ◌∙◌, ap, ℤ, Bool, true, false, Bool-cases, inl, inr, Str, str_eq, str_eq_iff, List, [],
  ◌∷◌, Option, none, some, arith, if◌then◌else◌, All,
}
use popu_gate.Config.Maps.{find, find-assign}
use popu_gate.Config.Defs.{AccessConfig, SecretEntry, RateLimit}
use popu_gate.Config.Access.{
  new_empty_access, apply_limits, apply_secret, apply_secrets_to_access, assign_if, is_positive,
  rate_limited, expires,
}

-- What the engine is told about a user; none is a key that is missing from its table.
pub record Policy : Type 0 where
  pub key : Option Str
  pub max_conns : Option ℤ
  pub max_ips : Option ℤ
  pub quota : Option ℤ
  pub rate : Option RateLimit
  pub expiration : Option Str
  pub allowed : Option Bool

abbrev pub unknown : Policy
unknown = record {
  key = none;
  max_conns = none;
  max_ips = none;
  quota = none;
  rate = none;
  expiration = none;
  allowed = none;
}

abbrev pub only : {V : Type 0} → Bool → V → Option V
only b v = if b then some v else none

-- The limits that an enabled secret sets, and the block of a disabled one.
abbrev pub policy_of : SecretEntry → Policy
policy_of sec =
    if sec.enabled
    then record {
      key = some sec.secret_key;
      max_conns = only (is_positive sec.max_conns) sec.max_conns;
      max_ips = only (is_positive sec.max_ips) sec.max_ips;
      quota = only (is_positive sec.quota_bytes) sec.quota_bytes;
      rate =
          only (rate_limited sec)
            (record { up_bps = sec.rate_limit_up_bps; down_bps = sec.rate_limit_down_bps });
      expiration = only (expires sec) sec.expires_at;
      allowed = none;
    }
    else record unknown { key = some sec.secret_key; allowed = some false }

-- The secret of a label.
unfoldable pub secret_of : Str → List SecretEntry → Option SecretEntry
secret_of l [] = none
secret_of l (sec ∷ secrets) = if str_eq sec.label l then some sec else secret_of l secrets

abbrev pub policy : Option SecretEntry → Policy
policy none = unknown
policy (some sec) = policy_of sec

-- The tables of the access section, at one label.
unfoldable pub view : Str → AccessConfig → Policy
view l a = record {
  key = find l a.users;
  max_conns = find l a.user_max_tcp_conns;
  max_ips = find l a.user_max_unique_ips;
  quota = find l a.user_data_quota;
  rate = find l a.user_rate_limits;
  expiration = find l a.user_expirations;
  allowed = find l a.user_enabled;
}

-- No secret has the label.
abbrev pub Absent : Str → List SecretEntry → Type 0
Absent l = All (λ sec. str_eq sec.label l ≡ false)

-- The labels are distinct.
abbrev pub Distinct : List SecretEntry → Type 0
Distinct [] = Unit
Distinct (sec ∷ secrets) = Absent sec.label secrets × Distinct secrets

find-assign_if :
    {V : Type 0} (l : Str) (b : Bool) (k : Str) (v : V) (m : List (Str × V))
    → find l (assign_if b k v m)
      ≡ (if str_eq k l then (if b then some v else find l m) else find l m)
find-assign_if l true k v m = find-assign l k v m
find-assign_if l false k v m = ground arith

view-apply_secret_other :
    (l : Str) (sec : SecretEntry) (a : AccessConfig)
    → str_eq sec.label l ≡ false
    → view l (apply_secret sec a) ≡ view l a
unfolding view apply_secret apply_limits
view-apply_secret_other l sec a h = elim (Bool-cases sec.enabled) [
  | inl e ↦ simp (e, find-assign_if, find-assign, h)
  | inr e ↦ simp (e, find-assign, h)
]

view-apply_secret :
    (l : Str) (sec : SecretEntry) (a : AccessConfig)
    → str_eq sec.label l ≡ true
    → view l a ≡ unknown
    → view l (apply_secret sec a) ≡ policy_of sec
unfolding view apply_secret apply_limits
view-apply_secret l sec a h u = elim (Bool-cases sec.enabled) [
  | inl e ↦ simp (
    e,
    find-assign_if,
    find-assign,
    h,
    ap (λ (p : Policy). p.max_conns) u,
    ap (λ (p : Policy). p.max_ips) u,
    ap (λ (p : Policy). p.quota) u,
    ap (λ (p : Policy). p.rate) u,
    ap (λ (p : Policy). p.expiration) u,
    ap (λ (p : Policy). p.allowed) u,
  )
  | inr e ↦ simp (
    e,
    find-assign,
    h,
    ap (λ (p : Policy). p.max_conns) u,
    ap (λ (p : Policy). p.max_ips) u,
    ap (λ (p : Policy). p.quota) u,
    ap (λ (p : Policy). p.rate) u,
    ap (λ (p : Policy). p.expiration) u,
    ap (λ (p : Policy). p.allowed) u,
  )
]

view-Absent :
    (l : Str) (secrets : List SecretEntry) (a : AccessConfig)
    → Absent l secrets
    → view l (apply_secrets_to_access secrets a) ≡ view l a
unfolding apply_secrets_to_access
view-Absent l [] a h = refl
view-Absent l (sec ∷ secrets) a h =
    view-Absent l secrets (apply_secret sec a) h.1 ∙ view-apply_secret_other l sec a h.0

view-apply_secrets :
    (l : Str) (secrets : List SecretEntry) (a : AccessConfig)
    → Distinct secrets
    → view l a ≡ unknown
    → view l (apply_secrets_to_access secrets a) ≡ policy (secret_of l secrets)
unfolding apply_secrets_to_access secret_of
view-apply_secrets l [] a d u = u
view-apply_secrets l (sec ∷ secrets) a d u = elim (Bool-cases (str_eq sec.label l)) [
  | inl e ↦ rw e (
      view-Absent l secrets (apply_secret sec a) (rw (← (str_eq_iff sec.label l).0 e) d.0)
      ∙ view-apply_secret l sec a e u)
  | inr e ↦ rw e (
      view-apply_secrets l secrets (apply_secret sec a) d.1 (view-apply_secret_other l sec a e ∙ u))
]

-- Where the labels of the secrets are distinct, the access section that is built from them says of
-- every label exactly the policy of its secret: the key and the positive limits of an enabled
-- secret, the key and a block of a disabled one, and nothing of a label without a secret.
pub view-apply_secrets_to_access :
    (l : Str) (secrets : List SecretEntry)
    → Distinct secrets
    → view l (apply_secrets_to_access secrets new_empty_access) ≡ policy (secret_of l secrets)
unfolding new_empty_access view find
view-apply_secrets_to_access l secrets d = view-apply_secrets l secrets new_empty_access d refl
