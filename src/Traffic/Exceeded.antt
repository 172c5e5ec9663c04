-- ===== src/Traffic/Exceeded.antt =====
-- `checkSecretQuota` of internal/service/traffic_service.go where a quota is used up.
use native.Mathlib.Nat.{le-div_iff_mul-le}
use popu_gate.Prelude.{
  ℕ, suc, ◌*◌, ◌^◌, ◌≤◌, ◌<◌, ℤ, pos, ◌+ℤ◌, leb_ℤ, ltb, ◌≡◌, refl, ◌∙◌, Bool, true, false, not,
  ◌||◌, Str, str_eq_refl, List, [], ◌∷◌, ◌++◌, some, if◌then◌else◌, arith,
}
use popu_gate.Model.Secret.{Secret}
use popu_gate.Model.Tables.{Tables}
use popu_gate.Sys.{Sys, M, pure, query, exec, attempt}
use popu_gate.Sys.Quiet.{Quiet, passed_by}
use popu_gate.SecretStore
use popu_gate.SecretStore.Rows.{find, update_where, enabled_rows, sum_in, sum_out}
use popu_gate.Traffic.Store.{get_user_traffic, was_alerted, mark_alerted, has_alert}
use popu_gate.Traffic.Quota.{
  disable_unless_last, check_quota_exceeded, percent_of, check_total, check_secret_quota,
}

-- Without overflow the percentage is 100 or more exactly where the quota is used up.
percent_of-reached :
    (total quota : ℕ)
    → 0 < quota
    → total * 100 < 2 ^ 63
    → quota ≤ total
    → leb_ℤ (pos 100) (percent_of total quota) ≡ true
unfolding percent_of
percent_of-reached total quota h small used =
    ground
      (arith, (le-div_iff_mul-le {k = quota} {x = 100} {y = total * 100} h).1 (omega (arith, used)))

abbrev turned_off : Secret → Tables → Tables
turned_off sec db = record db {
  secrets =
      update_where sec.label (SecretStore.columns (record sec { enabled = false })) db.secrets;
  quota_alerts = db.quota_alerts ++ (sec.label, 100) ∷ [];
}

check_quota_exceeded-Quiet :
    (sec : Secret) (s : Sys)
    → Quiet s.env
    → has_alert sec.label 100 s.db.quota_alerts ≡ false
    → ltb 1 (enabled_rows s.db.secrets) ≡ true
    → (check_quota_exceeded sec s).1.db ≡ turned_off sec s.db
unfolding check_quota_exceeded disable_unless_last SecretStore.count_enabled SecretStore.update
    SecretStore.set_where was_alerted mark_alerted query exec attempt
check_quota_exceeded-Quiet sec s q fresh two =
    rw
      (
        q s.ticks,
        fresh,
        q (suc s.ticks),
        two,
        q (suc (suc s.ticks)),
        q (suc (suc (suc s.ticks))),
        fresh,
      )
      refl

not_skipped :
    (b : Bool) (m : M (Unit {0})) (s : Sys)
    → b ≡ false
    → ((if b then pure tt else m) s).1.db ≡ (m s).1.db
not_skipped b m s e = rw e refl

is_limited :
    (b : Bool) (n : ℤ) (k : ℕ) → b ≡ true → n ≡ pos (suc k) → (not b || leb_ℤ n (pos 0)) ≡ false
is_limited b n k e f = rw (e, f) (ground arith)

check_total-Quiet :
    (sec : Secret) (t l : ℤ) (total quota : ℕ) (s : Sys)
    → Quiet s.env
    → l ≡ pos (suc quota)
    → t ≡ pos (suc total)
    → leb_ℤ (pos 100) (percent_of (suc total) (suc quota)) ≡ true
    → has_alert sec.label 100 s.db.quota_alerts ≡ false
    → ltb 1 (enabled_rows s.db.secrets) ≡ true
    → (check_total sec t l s).1.db ≡ turned_off sec s.db
check_total-Quiet sec t l total quota s q limit used full fresh two =
    rw (limit, used, full) (check_quota_exceeded-Quiet sec s q fresh two)

check_secret_quota-Quiet :
    (sec : Secret) (total quota : ℕ) (s : Sys)
    → Quiet s.env
    → sec.enabled ≡ true
    → sec.quota_bytes ≡ pos (suc quota)
    → sum_in sec.label s.db.traffic_user +ℤ sum_out sec.label s.db.traffic_user ≡ pos (suc total)
    → leb_ℤ (pos 100) (percent_of (suc total) (suc quota)) ≡ true
    → has_alert sec.label 100 s.db.quota_alerts ≡ false
    → ltb 1 (enabled_rows s.db.secrets) ≡ true
    → (check_secret_quota sec s).1.db ≡ turned_off sec s.db
unfolding check_secret_quota get_user_traffic query attempt
check_secret_quota-Quiet sec total quota s q on limit used full fresh two =
    not_skipped _ _ s (is_limited sec.enabled sec.quota_bytes quota on limit)
    ∙ rw (q s.ticks) (
        check_total-Quiet sec _ _ total quota (passed_by (suc s.ticks) s.db s) q limit used full
          fresh two)

find-update_where :
    (l : Str) (f : Secret → Secret) (rs : List Secret) (r : Secret)
    → ((x : Secret) → (f x).label ≡ x.label)
    → find l rs ≡ some r
    → find l (update_where l f rs) ≡ some (f r)
unfolding find update_where
find-update_where l f [] r k h = cc
find-update_where l f (x ∷ rs) r k h = ground (arith, find-update_where l f rs r k, k x)

has_alert-append :
    (l : Str) (p : ℕ) (alerts : List (Str × ℕ)) → has_alert l p (alerts ++ (l, p) ∷ []) ≡ true
unfolding has_alert
has_alert-append l p [] = rw (str_eq_refl l) (ground arith)
has_alert-append l p ((k, q) ∷ alerts) = ground (arith, has_alert-append l p alerts)

-- While no call of the database fails: for an enabled secret with a quota that its traffic has used
-- up, 100 times the traffic being below 2 ^ 63, that was not alerted at 100 percent, and two enabled
-- secrets at least, a check disables the row of the secret and notes the alert.
pub check_secret_quota-disabled :
    (sec r : Secret) (total quota : ℕ) (s : Sys)
    → Quiet s.env
    → sec.enabled ≡ true
    → sec.quota_bytes ≡ pos (suc quota)
    → sum_in sec.label s.db.traffic_user +ℤ sum_out sec.label s.db.traffic_user ≡ pos (suc total)
    → quota ≤ total
    → suc total * 100 < 2 ^ 63
    → has_alert sec.label 100 s.db.quota_alerts ≡ false
    → 2 ≤ enabled_rows s.db.secrets
    → find sec.label s.db.secrets ≡ some r
    → (after : Secret) × (find sec.label (check_secret_quota sec s).1.db.secrets ≡ some after)
      × (after.enabled ≡ false)
      × (has_alert sec.label 100 (check_secret_quota sec s).1.db.quota_alerts ≡ true)
check_secret_quota-disabled sec r total quota s q on limit used full small fresh two e =
    let off = SecretStore.columns (record sec { enabled = false }) in
    let done =
      check_secret_quota-Quiet sec total quota s q on limit used
        (percent_of-reached (suc total) (suc quota) (omega arith) small (omega (arith, full))) fresh
        (ground (arith, two)) in
    (
      off r,
      rw done (find-update_where sec.label off s.db.secrets r (λ x. refl) e),
      refl,
      rw done (has_alert-append sec.label 100 s.db.quota_alerts),
    )
