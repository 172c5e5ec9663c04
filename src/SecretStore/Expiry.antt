-- ===== src/SecretStore/Expiry.antt =====
-- `DisableExpired` of internal/store/secret_store.go, and `parseExpiry` of settings_store.go.
use popu_gate.Prelude.{
  ℕ, zero, suc, ◌+◌, ◌-◌, ◌*◌, ℤ, pos, negsuc, ltb_ℤ, Bool, false, not, ◌&&◌, Str, codes, str_eq,
  List, [], ◌∷◌, Option, none, some, if◌then◌else◌, ◌==◌, leb, length, take,
}
use popu_gate.Model.Secret.{Secret}
use popu_gate.Model.Tables.{Tables}
use popu_gate.Sys.{M, Env, query, exec, now, calendar, transaction, pure, ◌>>=◌}
use popu_gate.SecretStore.Rows.{enabled_rows, disable_id, enabled_with_id}

-- The digits of `strconv.ParseInt` in base 10, after those of `n`; none where a byte is no digit.
unfoldable pub parse_digits : ℕ → Str → Option ℕ
parse_digits n [] = some n
parse_digits n (c ∷ cs) =
    let rest = parse_digits (n * 10 + (c - b'0')) cs in
    if leb b'0' c && leb c b'9' then rest else none

abbrev pub max_int64 : ℕ
max_int64 = 9_223_372_036_854_775_807

abbrev pub to_positive : Option ℕ → Option ℤ
to_positive none = none
to_positive (some n) = if leb n max_int64 then some (pos n) else none

abbrev pub to_negative : Option ℕ → Option ℤ
to_negative none = none
to_negative (some zero) = some (pos 0)
to_negative (some (suc n)) = if leb n max_int64 then some (negsuc n) else none

abbrev pub unsigned : Str → Option ℕ
unsigned [] = none
unsigned (c ∷ cs) = parse_digits 0 (c ∷ cs)

-- `strconv.ParseInt(s, 10, 64)`: an optional sign and at least one digit, within 64 bits.
unfoldable pub parse_int : Str → Option ℤ
unfolding parse_digits
parse_int [] = none
parse_int (c ∷ cs) =
    if c == b'+'
    then to_positive (unsigned cs)
    else if c == b'-'
    then to_negative (unsigned cs)
    else to_positive (unsigned (c ∷ cs))

abbrev pub or_else : Option ℤ → Option ℤ → Option ℤ
or_else none y = y
or_else (some t) y = some t

-- `time.Unix(n, 0)` for n > 0, in nanoseconds.
abbrev pub from_seconds : Option ℤ → Option ℤ
from_seconds none = none
from_seconds (some (negsuc n)) = none
from_seconds (some (pos zero)) = none
from_seconds (some (pos (suc n))) = some (pos (suc n * 1_000_000_000))

-- `parseExpiry`: the three layouts in turn, then a Unix time.
unfoldable pub parse_expiry : Env → Str → Option ℤ
unfolding parse_int
parse_expiry env s =
    or_else (env.parse_rfc3339 s)
      (or_else (env.parse_zulu s) (or_else (env.parse_date s) (from_seconds (parse_int s))))

-- expires_at != '' AND expires_at != '0'
abbrev pub has_expiry : Str → Bool
has_expiry s = not (str_eq s []) && not (str_eq s (codes "0"))

abbrev pub is_after : ℤ → Option ℤ → Bool
is_after t none = false
is_after t (some e) = ltb_ℤ e t

-- The loop of `findExpiredIDs` over the enabled rows with an expiry.
unfoldable pub expired_ids : (Str → Option ℤ) → ℤ → List Secret → List ℕ
expired_ids parse t [] = []
expired_ids parse t (r ∷ rs) =
    if r.enabled && has_expiry r.expires_at && is_after t (parse r.expires_at)
    then r.id ∷ expired_ids parse t rs
    else expired_ids parse t rs

unfoldable pub find_expired_ids : M (List ℕ)
unfolding expired_ids parse_expiry
find_expired_ids = do
  rows ← query (λ db. db.secrets)
  t ← now
  env ← calendar
  pure (expired_ids (parse_expiry env) t rows)

unfoldable pub disable_row : ℕ → Tables → Option (ℕ × Tables)
disable_row i db =
    some (enabled_with_id i db.secrets, record db { secrets = disable_id i db.secrets })

-- The loop of UPDATEs; its result is the number of rows that were disabled.
unfoldable pub disable_ids : List ℕ → M ℕ
unfolding disable_row
disable_ids [] = pure 0
disable_ids (i ∷ is) = do n ← exec (disable_row i); rest ← disable_ids is; pure (n + rest)

-- `toDisable[:len(toDisable)-1]` where all enabled rows have expired.
unfoldable pub spare_last : ℕ → List ℕ → List ℕ
spare_last enabled ids = if leb enabled (length ids) then take (length ids - 1) ids else ids

unfoldable pub disable_expired : M ℕ
unfolding find_expired_ids disable_ids spare_last
disable_expired = transaction do
  ids ← find_expired_ids
  if length ids == 0
      then pure 0
      else do enabled ← query (λ db. enabled_rows db.secrets); disable_ids (spare_last enabled ids)
