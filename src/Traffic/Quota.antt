-- ===== src/Traffic/Quota.antt =====
-- internal/service/traffic_service.go: the quotas and the scheduled expiry check.
use popu_gate.Prelude.{
  ℕ, zero, suc, ◌*◌, ◌-◌, ◌/◌, ◌%◌, ◌^◌, ℤ, pos, negsuc, ◌+ℤ◌, ltb_ℤ, leb_ℤ, ltb, Bool, false, not,
  ◌||◌, Str, str_eq, codes, List, [], ◌∷◌, Option, none, some, if◌then◌else◌,
}
use popu_gate.Model.Secret.{Secret}
use popu_gate.Sys.{M, Env, attempt, now, calendar, pure, ◌>>=◌, ◌>>◌}
use popu_gate.SecretStore
use popu_gate.Traffic.Store.{get_user_traffic, was_alerted, mark_alerted, reset_all_traffic}

-- Disables a secret of the list that was read before, unless it would be the last enabled one;
-- where the count fails, it is 0.
abbrev pub disable_counted : Secret → Option ℕ → M (Unit {0})
disable_counted sec none = pure tt
disable_counted sec (some n) =
    if ltb 1 n
    then (do attempt (SecretStore.update (record sec { enabled = false })); pure tt)
    else pure tt

unfoldable pub disable_unless_last : Secret → M (Unit {0})
disable_unless_last sec = do n ← attempt SecretStore.count_enabled; disable_counted sec n

abbrev pub answered : Option Bool → Bool
answered none = false
answered (some b) = b

unfoldable pub check_quota_exceeded : Secret → M (Unit {0})
unfolding disable_unless_last
check_quota_exceeded sec = do
  alerted ← attempt (was_alerted sec.label 100)
  if answered alerted
      then pure tt
      else (do disable_unless_last sec; attempt (mark_alerted sec.label 100); pure tt)

unfoldable pub check_quota_warning : Str → M (Unit {0})
check_quota_warning label = do
  alerted ← attempt (was_alerted label 80)
  if answered alerted then pure tt else (do attempt (mark_alerted label 80); pure tt)

abbrev pub minus : ℕ → ℤ
minus zero = pos 0
minus (suc n) = negsuc n

-- `totalBytes * 100 / quota` in int64: the product wraps around, the quotient is rounded to 0.
unfoldable pub percent_of : ℕ → ℕ → ℤ
percent_of total quota =
    let product = (total * 100) % 2 ^ 64 in
    if ltb product (2 ^ 63) then pos (product / quota) else minus ((2 ^ 64 - product) / quota)

abbrev pub check_percent : Secret → ℤ → M (Unit {0})
check_percent sec pct =
    if leb_ℤ (pos 100) pct
    then check_quota_exceeded sec
    else if leb_ℤ (pos 80) pct
    then check_quota_warning sec.label
    else pure tt

-- The rest where the quota is a positive number and so is the traffic.
abbrev pub check_total : Secret → ℤ → ℤ → M (Unit {0})
check_total sec (pos (suc total)) (pos (suc quota)) =
    check_percent sec (percent_of (suc total) (suc quota))
check_total sec (pos (suc total)) (pos zero) = pure tt
check_total sec (pos (suc total)) (negsuc quota) = pure tt
check_total sec (pos zero) quota = pure tt
check_total sec (negsuc total) quota = pure tt

abbrev pub check_used : Secret → Option (ℤ × ℤ) → M (Unit {0})
check_used sec none = pure tt
check_used sec (some (used_in, used_out)) = check_total sec (used_in +ℤ used_out) sec.quota_bytes

unfoldable pub check_secret_quota : Secret → M (Unit {0})
unfolding check_quota_exceeded check_quota_warning percent_of
check_secret_quota sec =
    if not sec.enabled || leb_ℤ sec.quota_bytes (pos 0)
    then pure tt
    else (do used ← attempt (get_user_traffic sec.label); check_used sec used)

-- The loop over the listed secrets.
unfoldable pub for_each : (Secret → M (Unit {0})) → List Secret → M (Unit {0})
for_each f [] = pure tt
for_each f (sec ∷ secs) = do f sec; for_each f secs

abbrev pub or_none : Option (List Secret) → List Secret
or_none none = []
or_none (some secs) = secs

unfoldable pub check_quotas : M (Unit {0})
unfolding check_secret_quota for_each
check_quotas = do secs ← attempt SecretStore.list; for_each check_secret_quota (or_none secs)

-- `now.After(expTime)`; a text that is no date is passed over.
abbrev pub has_passed : ℤ → Option ℤ → Bool
has_passed t none = false
has_passed t (some e) = ltb_ℤ e t

unfoldable pub check_expiration : Env → ℤ → Secret → M (Unit {0})
unfolding disable_unless_last
check_expiration env t sec =
    if not sec.enabled || (str_eq sec.expires_at [] || str_eq sec.expires_at (codes "0"))
    then pure tt
    else if has_passed t (env.parse_date sec.expires_at)
    then disable_unless_last sec
    else pure tt

unfoldable pub check_expirations : M (Unit {0})
unfolding check_expiration for_each
check_expirations = do
  secs ← attempt SecretStore.list
  t ← now
  env ← calendar
  for_each (check_expiration env t) (or_none secs)

-- `ResetAllQuotas`, without the calls of the engines that follow it.
unfoldable pub reset_all_quotas : M (Unit {0})
reset_all_quotas = do attempt reset_all_traffic; pure tt
