-- ===== src/Settings/Saved.antt =====
-- `Save` and `Load` of internal/store/settings_store.go: the rows before and behind.
use popu_gate.Prelude.{
  ◌≡◌, refl, Str, str_eq, str_eq_iff, List, [], ◌∷◌, Option, none, some, arith, if◌then◌else◌,
}
use popu_gate.Sys.{Sys}
use popu_gate.Sys.Ensures.{
  Ensures, Outcome, ensure_bind, ensure_pure, ensure_write, ensure_transaction, ensure_weaken,
  ensure_query,
}
use popu_gate.Settings.Range.{InRange, validate-InRange}
use popu_gate.Settings.Store.{lookup, put, save_all, save, load, read_settings}

abbrev put_all : List (Str × Str) → List (Str × Str) → List (Str × Str)
put_all [] kv = kv
put_all ((k, v) ∷ updates) kv = put_all updates (put k v kv)

-- The updates are the entries of a map: no key comes twice.
abbrev pub Distinct : List (Str × Str) → Type 0
Distinct [] = Unit
Distinct ((k, v) ∷ kv) = (lookup k kv ≡ none) × Distinct kv

abbrev pub or_old : Option Str → Option Str → Option Str
or_old none old = old
or_old (some v) old = some v

lookup-put :
    (j k v : Str) (kv : List (Str × Str))
    → lookup j (put k v kv) ≡ (if str_eq k j then some v else lookup j kv)
unfolding lookup put
lookup-put j k v [] = refl
lookup-put j k v ((i, w) ∷ kv) =
    ground (arith, lookup-put j k v kv, str_eq_iff i k, str_eq_iff k j, str_eq_iff i j)

lookup-put_all :
    (j : Str) (updates kv : List (Str × Str))
    → Distinct updates
    → lookup j (put_all updates kv) ≡ or_old (lookup j updates) (lookup j kv)
unfolding lookup
lookup-put_all j [] kv d = refl
lookup-put_all j ((k, v) ∷ updates) kv d =
    ground (arith, lookup-put_all j updates (put k v kv) d.1, lookup-put j k v kv, str_eq_iff k j)

save_all-eq :
    (updates kv : List (Str × Str))
    → Ensures
        (λ db. db.settings ≡ kv)
        (save_all updates)
        (λ _ db. db.settings ≡ put_all updates kv)
        (λ _. Unit)
unfolding save_all
save_all-eq [] kv = ensure_pure tt (λ db h. h)
save_all-eq ((k, v) ∷ updates) kv =
    ensure_bind
      (ensure_write {Q = λ _ db. db.settings ≡ put k v kv} (λ _. tt)
        (λ db. record db { settings = put k v db.settings }) (λ db h. rw h) (λ db h. tt))
      (λ _. save_all-eq updates (put k v kv))

-- A save of distinct keys: where it succeeds, each saved key has its new value and each other key
-- the value that it had; where it fails, at any statement, the tables are as before.
pub save-lookup :
    (updates : List (Str × Str)) (s : Sys)
    → Distinct updates
    → Outcome
        (λ _ db.
          (j : Str) → lookup j db.settings ≡ or_old (lookup j updates) (lookup j s.db.settings))
        (λ db. db ≡ s.db)
        (save updates s)
unfolding save
save-lookup updates s d =
    (ensure_transaction {P = λ db. db ≡ s.db} {E = λ db. db ≡ s.db}
        (ensure_weaken (λ db (e : db ≡ s.db). rw e refl) (save_all-eq updates s.db.settings)
          (λ _ db h j. rw h (lookup-put_all j updates s.db.settings d)) (λ db h. h))
        (λ db h. h)).at
      s refl

-- Whatever text the rows hold, settings that `Load` returns are in range, and it changes no table.
pub load-InRange : (s : Sys) → Outcome (λ r db. InRange r × (db ≡ s.db)) (λ db. db ≡ s.db) (load s)
unfolding load
load-InRange s =
    (ensure_bind {P = λ db. db ≡ s.db} {R = λ _ db. db ≡ s.db}
        (ensure_query (λ db. db.settings) (λ db h. h) (λ db h. h))
        (λ kv. ensure_pure _ (λ db h. (validate-InRange (read_settings kv), h)))).at
      s refl
