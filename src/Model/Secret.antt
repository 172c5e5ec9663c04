-- ===== src/Model/Secret.antt =====
-- internal/model/secret.go: a proxy secret, and the checks of labels.
use popu_gate.Prelude.{ℕ, ℤ, Bool, true, ◌&&◌, ◌||◌, Str, [], ◌∷◌, length, leb, ◌==◌}

-- `Secret`: an id of the table, and the limits as the signed integers of the source.
pub record Secret : Type 0 where
  pub id : ℕ
  pub label : Str
  pub secret_key : Str
  pub created_at : ℤ
  pub enabled : Bool
  pub max_conns : ℤ
  pub max_ips : ℤ
  pub quota_bytes : ℤ
  pub rate_limit_up_bps : ℤ
  pub rate_limit_down_bps : ℤ
  pub expires_at : Str
  pub notes : Str
  pub tags : Str
  pub archived_at : ℤ
  pub traffic_in : ℤ
  pub traffic_out : ℤ

-- The class `[a-zA-Z0-9_-]` of `labelRe`.
unfoldable pub is_label_char : ℕ → Bool
is_label_char c =
    leb b'a' c && leb c b'z'
    || leb b'A' c && leb c b'Z'
    || leb b'0' c && leb c b'9'
    || c == b'_'
    || c == b'-'

unfoldable pub all_label_chars : Str → Bool
all_label_chars [] = true
all_label_chars (c ∷ cs) = is_label_char c && all_label_chars cs

-- `ValidateLabel`: the whole label matches `^[a-zA-Z0-9_-]{1,32}$`.
unfoldable pub validate_label : Str → Bool
validate_label label = leb 1 (length label) && leb (length label) 32 && all_label_chars label

-- `MaxSecrets`
abbrev pub max_secrets : ℕ
max_secrets = 1000
