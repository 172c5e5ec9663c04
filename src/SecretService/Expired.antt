-- ===== src/SecretService/Expired.antt =====
-- Lemmas on disabling the expired secrets: `DisableExpired` of internal/store/secret_store.go.
use popu_gate.Prelude.{
  ℕ, suc, ◌-◌, ◌≤◌, ◌≡◌, refl, Bool, true, false, ℤ, Str, List, [], ◌∷◌, Option, arith, length,
  length-take, if◌then◌else◌, ◌==◌,
}
use popu_gate.Model.Secret.{Secret}
use popu_gate.Model.Tables.{Tables}
use popu_gate.Sys.{Sys, query, pure, ◌>>=◌}
use popu_gate.Sys.Keeps.{Keeps-now, Keeps-calendar}
use popu_gate.Sys.Ensures.{
  Ensures, ensure_after, ensure_bind, ensure_pure, ensure_query, ensure_write, ensure_transaction,
  ensure_weaken, Ensures-state,
}
use popu_gate.SecretStore
use popu_gate.SecretStore.{
  parse_expiry, expired_ids, disable_ids, spare_last, find_expired_ids, disable_row, set_where,
}
use popu_gate.SecretStore.Rows.{enabled_rows, disable_id, enabled_with_id}
use popu_gate.SecretStore.Rows.Ids.{Ascending, enabled_rows-disable_id, disable_id-Ascending}
use popu_gate.SecretService.Defs.{disable_expired}

abbrev HasEnabled : Tables → Type 0
HasEnabled db = 1 ≤ enabled_rows db.secrets

-- The expired rows are enabled rows.
length-expired_ids :
    (parse : Str → Option ℤ) (t : ℤ) (rs : List Secret)
    → length (expired_ids parse t rs) ≤ enabled_rows rs
unfolding expired_ids enabled_rows
length-expired_ids parse t [] = omega arith
length-expired_ids parse t (r ∷ rs) = ground (arith, length-expired_ids parse t rs)

length-spare_last :
    (n : ℕ) (ids : List ℕ) → 1 ≤ n → length ids ≤ n → suc (length (spare_last n ids)) ≤ n
unfolding spare_last
length-spare_last n ids h k = ground (arith, length-take (length ids - 1) ids)

-- More rows are enabled than `k`, and no two have the same id.
abbrev HasOver : ℕ → Tables → Type 0
HasOver k db = Ascending 0 db.secret_seq db.secrets × (suc k ≤ enabled_rows db.secrets)

over_enabled : (k : ℕ) (db : Tables) → HasOver k db → HasEnabled db
over_enabled k db h = omega (arith, h.1)

disable_ids-HasEnabled :
    (ids : List ℕ) → Ensures (HasOver (length ids)) (disable_ids ids) (λ _. HasEnabled) HasEnabled
unfolding disable_ids disable_row
disable_ids-HasEnabled [] = ensure_pure 0 (over_enabled 0)
disable_ids-HasEnabled (i ∷ is) =
    ensure_bind
      (ensure_write {Q = λ _. HasOver (length is)} (λ db. enabled_with_id i db.secrets)
        (λ db. record db { secrets = disable_id i db.secrets })
        (λ db h. (
          disable_id-Ascending i 0 db.secret_seq db.secrets h.0,
          omega (arith, h.1, enabled_rows-disable_id i 0 db.secret_seq db.secrets h.0),
        ))
        (over_enabled (length (i ∷ is))))
      (λ n. ensure_bind (disable_ids-HasEnabled is) (λ rest. ensure_pure _ (λ db h. h)))

-- The tables in which expired rows are looked for.
abbrev Start : Tables → Type 0
Start db = Ascending 0 db.secret_seq db.secrets × HasEnabled db

find_expired_ids-le :
    Ensures Start find_expired_ids
      (λ ids db. Start db × (length ids ≤ enabled_rows db.secrets))
      HasEnabled
unfolding find_expired_ids
find_expired_ids-le =
    ensure_bind
      (ensure_query {Q = λ rows db. Start db × (rows ≡ db.secrets)} (λ db. db.secrets)
        (λ db h. (h, refl)) (λ db h. h.1))
      (λ rows.
        ensure_after Keeps-now
          (λ t.
            ensure_after Keeps-calendar
              (λ env.
                ensure_pure _
                  (λ db h. (h.0, rw (← h.1) (length-expired_ids (parse_expiry env) t rows))))
              (λ db h. h.0.1))
          (λ db h. h.0.1))

disable_found-HasEnabled :
    (ids : List ℕ)
    → Ensures
        (λ db. Start db × (length ids ≤ enabled_rows db.secrets))
        (query (λ db. enabled_rows db.secrets) >>= λ n. disable_ids (spare_last n ids))
        (λ _. HasEnabled)
        HasEnabled
disable_found-HasEnabled ids =
    ensure_bind
      (ensure_query
        {Q = λ n db.
          Start db × (length ids ≤ enabled_rows db.secrets) × (n ≡ enabled_rows db.secrets)}
        (λ db. enabled_rows db.secrets) (λ db h. (h.0, h.1, refl)) (λ db h. h.0.1))
      (λ n.
        ensure_weaken
          (λ db h. (
            h.0.0,
            omega (
              arith,
              h.2,
              length-spare_last n ids (omega (arith, h.0.1, h.2)) (omega (arith, h.1, h.2)),
            ),
          ))
          (disable_ids-HasEnabled (spare_last n ids)) (λ _ db h. h) (λ db h. h))

-- Disabling the expired secrets, from ascending ids and one or more enabled secrets: at least one
-- secret is enabled behind the call, whatever has expired and whichever database calls fail.
pub disable_expired-enabled_rows :
    (s : Sys)
    → Ascending 0 s.db.secret_seq s.db.secrets
    → 1 ≤ enabled_rows s.db.secrets
    → 1 ≤ enabled_rows (disable_expired s).1.db.secrets
unfolding disable_expired SecretStore.disable_expired
disable_expired-enabled_rows s a h =
    Ensures-state
      (ensure_transaction {F = HasEnabled}
        (ensure_bind find_expired_ids-le (λ ids. disable_or_not ids (length ids == 0)))
        (λ db k. k.1))
      s (a, h)
  where
    disable_or_not :
        (ids : List ℕ) (b : Bool)
        → Ensures
            (λ db. Start db × (length ids ≤ enabled_rows db.secrets))
            (if b
              then pure 0
              else query (λ db. enabled_rows db.secrets) >>= λ n. disable_ids (spare_last n ids))
            (λ _. HasEnabled)
            HasEnabled
    disable_or_not ids true = ensure_pure 0 (λ db k. k.0.1)
    disable_or_not ids false = disable_found-HasEnabled ids
