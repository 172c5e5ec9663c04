-- ===== src/SecretStore/Bulk.antt =====
-- internal/store/secret_store.go: the methods over a list of labels, each in one transaction.
use mathlib.Core.Option
use popu_gate.Prelude.{
  ℕ, ◌+◌, ℤ, pos, negsuc, Bool, true, false, Str, str_eq, List, [], ◌∷◌, Option, none, some,
  if◌then◌else◌, ltb,
}
use popu_gate.Model.Secret.{Secret}
use popu_gate.Sys.{M, query, exec, transaction, attempt, pure, guard, ◌>>=◌, ◌>>◌, last_enabled}
use popu_gate.SecretStore.Rows.{find, enabled_rows, one_if}
use popu_gate.SecretStore.Defs.{set_where, extended}

-- The rows that a statement affected, 0 where it failed and the loop went on.
abbrev pub affected : Option ℕ → ℕ
affected none = 0
affected (some n) = n

-- `for _, label := range labels`, adding up what each round reports.
unfoldable pub sum_over : (Str → M (Option ℕ)) → List Str → M ℕ
sum_over f [] = pure 0
sum_over f (l ∷ ls) = do n ← f l; rest ← sum_over f ls; pure (affected n + rest)

unfoldable pub bulk_extend_expiry : List Str → Str → Bool → M ℕ
unfolding sum_over set_where
bulk_extend_expiry labels expires reenable =
    transaction (sum_over (λ l. attempt (exec (set_where l (extended expires reenable)))) labels)

-- A Go map as an association list, the first entry of a key being its value.
unfoldable pub key_of : Str → List (Str × Str) → Option Str
key_of l [] = none
key_of l ((k, v) ∷ rest) = if str_eq k l then some v else key_of l rest

abbrev pub set_key : Str → Option Str → M (Option ℕ)
set_key l none = pure none
set_key l (some key) = attempt (exec (set_where l (λ r. record r { secret_key = key })))

unfoldable pub bulk_rotate_keys : List Str → List (Str × Str) → M ℕ
unfolding sum_over set_where key_of
bulk_rotate_keys labels keys = transaction (sum_over (λ l. set_key l (key_of l keys)) labels)

-- SELECT enabled … WHERE label = ?; a missing row or a failure is passed over.
abbrev pub currently_enabled : Option (Option Secret) → Option ℕ
currently_enabled none = none
currently_enabled (some none) = none
currently_enabled (some (some r)) = some (one_if r.enabled)

abbrev pub count_one : Str → M (Option ℕ)
count_one l = do row ← attempt (query (λ db. find l db.secrets)); pure (currently_enabled row)

-- The check in the transaction, skipped when enabling.
unfoldable pub check_not_last : List Str → Bool → M (Unit {0})
unfolding sum_over
check_not_last labels true = pure tt
check_not_last labels false = do
  current ← query (λ db. enabled_rows db.secrets)
  to_disable ← sum_over count_one labels
  guard (ltb to_disable current) last_enabled

unfoldable pub bulk_toggle_enabled : List Str → Bool → M ℕ
unfolding sum_over set_where check_not_last
bulk_toggle_enabled labels enable = transaction do
  check_not_last labels enable
  sum_over (λ l. attempt (exec (set_where l (λ r. record r { enabled = enable })))) labels

-- `if v >= 0 { field = v }`
abbrev pub if_set : ℤ → ℤ → ℤ
if_set (pos n) old = pos n
if_set (negsuc n) old = old

-- The limits of a request; a negative number and an empty text leave a field as it is.
pub record Limits : Type 0 where
  pub max_conns : ℤ
  pub max_ips : ℤ
  pub quota_bytes : ℤ
  pub expires_at : Str
  pub rate_limit_up_bps : ℤ
  pub rate_limit_down_bps : ℤ

abbrev pub with_limits : Limits → Secret → Secret
with_limits l sec = record sec {
  max_conns = if_set l.max_conns sec.max_conns;
  max_ips = if_set l.max_ips sec.max_ips;
  quota_bytes = if_set l.quota_bytes sec.quota_bytes;
  rate_limit_up_bps = if_set l.rate_limit_up_bps sec.rate_limit_up_bps;
  rate_limit_down_bps = if_set l.rate_limit_down_bps sec.rate_limit_down_bps;
  expires_at = if str_eq l.expires_at [] then sec.expires_at else l.expires_at;
}

-- UPDATE of the six columns of limits.
abbrev pub limit_columns : Secret → Secret → Secret
limit_columns sec r = record r {
  max_conns = sec.max_conns;
  max_ips = sec.max_ips;
  quota_bytes = sec.quota_bytes;
  rate_limit_up_bps = sec.rate_limit_up_bps;
  rate_limit_down_bps = sec.rate_limit_down_bps;
  expires_at = sec.expires_at;
}

abbrev pub limit_found : Limits → Option (Option Secret) → M (Option ℕ)
limit_found l none = pure none
limit_found l (some none) = pure none
limit_found l (some (some sec)) = do
  done ← attempt (exec (set_where sec.label (limit_columns (with_limits l sec))))
  pure (Option.map (λ _. 1) done)

unfoldable pub bulk_set_limits : List Str → Limits → M ℕ
unfolding sum_over set_where
bulk_set_limits labels l = transaction (
    sum_over (λ label. do row ← attempt (query (λ db. find label db.secrets)); limit_found l row)
      labels)
