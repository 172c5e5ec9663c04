-- ===== src/Examples/Config.antt =====
-- The settings and the keys of secrets at concrete inputs.
use popu_gate.Prelude.{pos, negsuc, ◌≡◌, refl, true, Str, str_eq, codes, List, [], ◌∷◌, arith}
use popu_gate.Sys.{Sys}
use popu_gate.Sys.Ensures.{Outcome}
use popu_gate.Telemt.{validate_secret_key, hex_encode}
use popu_gate.Telemt.Keys.{validate_secret_key-hex_encode}
use popu_gate.Settings.{Settings, default_settings, validate, lookup, save, load}
use popu_gate.Settings.Range.{InRange, validate-InRange, validate_same}
use popu_gate.Settings.Saved.{or_old, save-lookup, load-InRange}
use popu_gate.Examples.Samples.{sixteen, start, start_stormy}

abbrev wild : Settings
wild = record default_settings {
  proxy_port = pos 70000;
  masking_port = negsuc 4;
  geoblock_mode = codes "greylist";
}

validate_same_example : validate (validate wild) ≡ validate wild
validate_same_example = validate_same (validate wild) (validate-InRange wild)

abbrev updates : List (Str × Str)
updates = (codes "proxy_port", codes "8443") ∷ (codes "debug", codes "true") ∷ []

save-lookup_example :
    Outcome
      (λ _ db. (j : Str) → lookup j db.settings ≡ or_old (lookup j updates) (lookup j []))
      (λ db. db ≡ start_stormy.db)
      (save updates start_stormy)
unfolding lookup str_eq
save-lookup_example = save-lookup updates start_stormy (refl, (refl, tt))

abbrev odd_port : Sys
odd_port = record start {
  db = record start.db { settings = (codes "proxy_port", codes "-5") ∷ [] };
}

load-InRange_example :
    Outcome (λ r db. InRange r × (db ≡ odd_port.db)) (λ db. db ≡ odd_port.db) (load odd_port)
load-InRange_example = load-InRange odd_port

validate_secret_key-hex_encode_example : validate_secret_key (hex_encode sixteen) ≡ true
validate_secret_key-hex_encode_example =
    validate_secret_key-hex_encode sixteen (omega arith) (omega arith)
