-- ===== src/Traffic/Watch.antt =====
-- The scheduled jobs of internal/service/traffic_service.go, and the enabled secrets.
use popu_gate.Prelude.{
  ℕ, zero, suc, ℤ, pos, negsuc, ◌≤◌, ◌≡◌, refl, false, Str, List, [], ◌∷◌, Option, none, some,
  arith, ltb, Bool-cases, inl, inr, ltb→lt, leb_ℤ,
}
use popu_gate.Model.Secret.{Secret}
use popu_gate.Model.Tables.{Tables}
use popu_gate.Model.Traffic.{UserRow}
use popu_gate.Sys.{Sys, Env, M}
use popu_gate.Sys.Keeps.{
  Keeps, Keeps-bind, Keeps-pure, Keeps-query, Keeps-now, Keeps-calendar, Keeps-attempt, Keeps-if,
  Keeps-write,
}
use popu_gate.Sys.Ensures.{
  Ensures, ensure_bind, ensure_pure, ensure_query, ensure_attempt, ensure_weaken, Ensures-Keeps,
}
use popu_gate.Sys.Both.{ensure_both}
use popu_gate.SecretStore
use popu_gate.SecretStore.Rows.{enabled_rows}
use popu_gate.SecretStore.Valid.{IsValid}
use popu_gate.SecretStore.Valid.Methods.{update-IsValid}
use popu_gate.SecretService.Enabled.{update-HasEnabled}
use popu_gate.Traffic.Store.{get_user_traffic, was_alerted, mark_alerted, reset_all_traffic}
use popu_gate.Traffic.Quota.{
  disable_counted, disable_unless_last, check_quota_exceeded, check_quota_warning, percent_of,
  check_percent, check_total, check_used, check_secret_quota, for_each, or_none, check_quotas,
  has_passed, check_expiration, check_expirations, reset_all_quotas,
}

-- What every job keeps: the invariant of `secrets`, and at least one enabled secret.
pub record Watched (db : Tables) : Type 0 where
  pub valid : IsValid db
  pub enabled : 1 ≤ enabled_rows db.secrets

abbrev Counted : Option ℕ → Tables → Type 0
Counted none db = Watched db
Counted (some n) db = Watched db × (n ≡ enabled_rows db.secrets)

disable-Watched :
    (sec : Secret)
    → Ensures
        (λ db. Watched db × (2 ≤ enabled_rows db.secrets))
        (SecretStore.update sec)
        (λ _. Watched)
        Watched
disable-Watched sec =
    ensure_weaken (λ db p. (p.0.valid, (p.0.valid.unique, p.1)))
      (ensure_both (update-IsValid sec) (update-HasEnabled sec))
      (λ _ db h. record { valid = h.0; enabled = h.1 })
      (λ db h. record { valid = h.0; enabled = h.1 })

disable_counted-Watched :
    (sec : Secret) (n : Option ℕ)
    → Ensures (Counted n) (disable_counted sec n) (λ _. Watched) Watched
disable_counted-Watched sec none = ensure_pure tt (λ db w. w)
disable_counted-Watched sec (some n) = elim (Bool-cases (ltb 1 n)) [
  | inl b ↦ rw b (
      ensure_bind {R = λ _. Watched}
        (ensure_attempt
          (ensure_weaken (λ db c. (c.0, omega (arith, c.1, ltb→lt 1 n b)))
            (disable-Watched (record sec { enabled = false })) (λ _ db w. w) (λ db w. w))
          (λ _ db w. w) (λ db w. w))
        (λ _. ensure_pure tt (λ db w. w)))
  | inr b ↦ rw b (ensure_pure tt (λ db c. c.0))
]

disable_unless_last-Watched : (sec : Secret) → Keeps Watched (disable_unless_last sec)
unfolding disable_unless_last SecretStore.count_enabled
disable_unless_last-Watched sec = Ensures-Keeps (
    ensure_bind {R = Counted}
      (ensure_attempt {Q = λ n db. Watched db × (n ≡ enabled_rows db.secrets)} {F = Watched}
        (ensure_query _ (λ db w. (w, refl)) (λ db w. w)) (λ n db c. c) (λ db w. w))
      (disable_counted-Watched sec))

-- Nothing of it is about the traffic or the alerts.
other_tables :
    (db : Tables) (users : List UserRow) (alerts : List (Str × ℕ))
    → Watched db
    → Watched (record db { traffic_user = users; quota_alerts = alerts })
other_tables db users alerts w = record {
  valid = record { unique = w.valid.unique; ascending = w.valid.ascending; room = w.valid.room };
  enabled = w.enabled;
}

mark_alerted-Watched : (l : Str) (p : ℕ) → Keeps Watched (mark_alerted l p)
unfolding mark_alerted
mark_alerted-Watched l p = Keeps-write _ _ (λ db w. other_tables db db.traffic_user _ w)

reset_all_traffic-Watched : Keeps Watched reset_all_traffic
unfolding reset_all_traffic
reset_all_traffic-Watched = Keeps-write _ _ (λ db w. other_tables db _ db.quota_alerts w)

check_quota_exceeded-Watched : (sec : Secret) → Keeps Watched (check_quota_exceeded sec)
unfolding check_quota_exceeded was_alerted
check_quota_exceeded-Watched sec = Keeps-bind (Keeps-attempt (Keeps-query _)) (λ alerted.
    Keeps-if _ (Keeps-pure tt) (
      Keeps-bind (disable_unless_last-Watched sec) (λ _.
        Keeps-bind (Keeps-attempt (mark_alerted-Watched sec.label 100)) (λ _. Keeps-pure tt))))

check_quota_warning-Watched : (l : Str) → Keeps Watched (check_quota_warning l)
unfolding check_quota_warning was_alerted
check_quota_warning-Watched l = Keeps-bind (Keeps-attempt (Keeps-query _)) (λ alerted.
    Keeps-if _ (Keeps-pure tt)
      (Keeps-bind (Keeps-attempt (mark_alerted-Watched l 80)) (λ _. Keeps-pure tt)))

check_percent-Watched : (sec : Secret) (pct : ℤ) → Keeps Watched (check_percent sec pct)
check_percent-Watched sec pct =
    Keeps-if (leb_ℤ (pos 100) pct) (check_quota_exceeded-Watched sec)
      (Keeps-if (leb_ℤ (pos 80) pct) (check_quota_warning-Watched sec.label) (Keeps-pure tt))

check_total-Watched : (sec : Secret) (total quota : ℤ) → Keeps Watched (check_total sec total quota)
check_total-Watched sec (pos (suc total)) (pos (suc quota)) =
    check_percent-Watched sec (percent_of (suc total) (suc quota))
check_total-Watched sec (pos (suc total)) (pos zero) = Keeps-pure tt
check_total-Watched sec (pos (suc total)) (negsuc quota) = Keeps-pure tt
check_total-Watched sec (pos zero) quota = Keeps-pure tt
check_total-Watched sec (negsuc total) quota = Keeps-pure tt

check_used-Watched : (sec : Secret) (used : Option (ℤ × ℤ)) → Keeps Watched (check_used sec used)
check_used-Watched sec none = Keeps-pure tt
check_used-Watched sec (some (i, o)) = check_total-Watched sec _ _

check_secret_quota-Watched : (sec : Secret) → Keeps Watched (check_secret_quota sec)
unfolding check_secret_quota get_user_traffic
check_secret_quota-Watched sec =
    Keeps-if _ (Keeps-pure tt) (Keeps-bind (Keeps-attempt (Keeps-query _)) (check_used-Watched sec))

for_each-Watched :
    (f : Secret → M (Unit {0})) (secs : List Secret)
    → ((sec : Secret) → Keeps Watched (f sec))
    → Keeps Watched (for_each f secs)
unfolding for_each
for_each-Watched f [] k = Keeps-pure tt
for_each-Watched f (sec ∷ secs) k = Keeps-bind (k sec) (λ _. for_each-Watched f secs k)

check_quotas-Watched : Keeps Watched check_quotas
unfolding check_quotas SecretStore.list
check_quotas-Watched =
    Keeps-bind (Keeps-attempt (Keeps-query _))
      (λ secs. for_each-Watched check_secret_quota (or_none secs) check_secret_quota-Watched)

check_expiration-Watched :
    (env : Env) (t : ℤ) (sec : Secret) → Keeps Watched (check_expiration env t sec)
unfolding check_expiration
check_expiration-Watched env t sec = Keeps-if _ (Keeps-pure tt) (
    Keeps-if (has_passed t (env.parse_date sec.expires_at)) (disable_unless_last-Watched sec)
      (Keeps-pure tt))

check_expirations-Watched : Keeps Watched check_expirations
unfolding check_expirations SecretStore.list
check_expirations-Watched = Keeps-bind (Keeps-attempt (Keeps-query _)) (λ secs.
    Keeps-bind Keeps-now (λ t. Keeps-bind Keeps-calendar (λ env.
      for_each-Watched (check_expiration env t) (or_none secs) (check_expiration-Watched env t))))

-- The jobs of the scheduler that read or write secrets and their traffic.
pub data Job : Type 0 where
  quotas expirations monthly_reset : Job

unfoldable pub run_job : Job → M (Unit {0})
run_job quotas = check_quotas
run_job expirations = check_expirations
run_job monthly_reset = reset_all_quotas

unfoldable pub run_jobs : List Job → Sys → Sys
run_jobs [] s = s
run_jobs (j ∷ js) s = run_jobs js (run_job j s).1

run_job-Watched : (j : Job) → Keeps Watched (run_job j)
unfolding run_job reset_all_quotas
run_job-Watched quotas = check_quotas-Watched
run_job-Watched expirations = check_expirations-Watched
run_job-Watched monthly_reset =
    Keeps-bind (Keeps-attempt reset_all_traffic-Watched) (λ _. Keeps-pure tt)

-- From well-formed secrets of which at least one is enabled, any sequence of quota checks, expiry
-- checks and monthly resets leads to such secrets, whichever database calls fail.
pub run_jobs-Watched : (js : List Job) (s : Sys) → Watched s.db → Watched (run_jobs js s).db
unfolding run_jobs
run_jobs-Watched [] s w = w
run_jobs-Watched (j ∷ js) s w = run_jobs-Watched js (run_job j s).1 ((run_job-Watched j).at s w)
