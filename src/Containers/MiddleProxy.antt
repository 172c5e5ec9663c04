-- ===== src/Containers/MiddleProxy.antt =====
-- The Middle-Proxy and shadowsocks in the configurations that are written.
use popu_gate.Prelude.{
  ◌≡◌, refl, ℕ, Bool, true, false, not, ◌&&◌, Str, codes, str_eq, str_eq_iff, List, [], ◌∷◌, map,
  Option, none, some, arith, All, if◌then◌else◌,
}
use mathlib.Core.Path.{subst}
use popu_gate.Model.Upstream.{Upstream, UpstreamType, direct, socks5, socks4, shadowsocks, other}
use popu_gate.Model.Instance.{Instance, Json}
use popu_gate.Model.Tables.{Tables}
use popu_gate.Sys.{not_found}
use popu_gate.Sys.Ensures.{
  Ensures, ensure_bind, ensure_pure, ensure_query, ensure_guard, ensure_raise,
}
use popu_gate.Settings as SettingsStore
use popu_gate.Settings.{Settings, lookup, validate}
use popu_gate.Settings.Store.{read_settings, get_bool_default, bool_of, or_zero}
use popu_gate.SecretStore as SecretStore
use popu_gate.UpstreamStore.Defs as UpstreamStore
use popu_gate.UpstreamStore.Validate as Checks
use popu_gate.UpstreamStore.Validate.{is_shadowsocks}
use popu_gate.UpstreamStore.Valid.{row_ok, all_ok}
use popu_gate.UpstreamService.Rules.{IsValid, proxy_on}
use popu_gate.InstanceStore.Defs as InstanceStore
use popu_gate.Config.Defs.{TelemtConfig, UpstreamConfig, UpstreamEntry}
use popu_gate.Config.Parts.{build_upstreams, build_upstream_config, with_type, type_text}
use popu_gate.Config.Build.{build_instance_config}
use popu_gate.Containers.Config.{
  upstream_entry, list_upstream_entries, generate_with_cached, generate_instance_config,
  reload_instance_config, found, Engine,
}

-- The upstream is none of type shadowsocks.
abbrev pub NotShadowsocks : UpstreamConfig → Type 0
NotShadowsocks u = str_eq u.kind (codes "shadowsocks") ≡ false

-- With the Middle-Proxy, no upstream of the configuration is of type shadowsocks (ADR-001).
abbrev pub IsCompatible : TelemtConfig → Type 0
IsCompatible cfg = cfg.general.use_middle_proxy ≡ true → All NotShadowsocks cfg.upstreams

-- The type text of a valid upstream of another type.
type_text-NotShadowsocks :
    (k : UpstreamType) (address url : Str)
    → Checks.target_ok k address url ≡ true
    → is_shadowsocks k ≡ false
    → str_eq (type_text k) (codes "shadowsocks") ≡ false
unfolding type_text str_eq
type_text-NotShadowsocks direct a u h k = refl
type_text-NotShadowsocks socks5 a u h k = refl
type_text-NotShadowsocks socks4 a u h k = refl
type_text-NotShadowsocks shadowsocks a u h k = ground arith
type_text-NotShadowsocks (other s) a u h k = ground arith

with_type-kind :
    (k : UpstreamType) (e : UpstreamEntry) (uc : UpstreamConfig) → (with_type k e uc).kind ≡ uc.kind
unfolding with_type
with_type-kind direct e uc = refl
with_type-kind socks5 e uc = refl
with_type-kind socks4 e uc = refl
with_type-kind shadowsocks e uc = refl
with_type-kind (other s) e uc = refl

build_upstream_config-kind :
    (u : Upstream) → (build_upstream_config (upstream_entry u)).kind ≡ type_text u.kind
unfolding build_upstream_config upstream_entry
build_upstream_config-kind u = with_type-kind u.kind (upstream_entry u) _

-- What a good row says of its type while the Middle-Proxy is on.
row_ok-type :
    (u : Upstream)
    → row_ok true u ≡ true
    → u.enabled ≡ true
    → (Checks.target_ok u.kind u.address u.url ≡ true) × (is_shadowsocks u.kind ≡ false)
unfolding Checks.validate
row_ok-type u h e = (ground arith, ground arith)

both_left : (a b : Bool) → (a && b) ≡ true → a ≡ true
both_left a b h = ground arith

both_right : (a b : Bool) → (a && b) ≡ true → b ≡ true
both_right a b h = ground arith

All-if :
    (b : Bool) (u : UpstreamConfig) (us : List UpstreamConfig)
    → (b ≡ true → NotShadowsocks u)
    → All NotShadowsocks us
    → All NotShadowsocks (if b then u ∷ us else us)
All-if true u us h a = (h refl, a)
All-if false u us h a = a

build_upstreams-NotShadowsocks :
    (rows : List Upstream)
    → all_ok true rows ≡ true
    → All NotShadowsocks (build_upstreams (map upstream_entry rows))
unfolding all_ok build_upstreams upstream_entry
build_upstreams-NotShadowsocks [] h = tt
build_upstreams-NotShadowsocks (u ∷ rows) h =
    All-if u.enabled (build_upstream_config (upstream_entry u))
      (build_upstreams (map upstream_entry rows))
      (λ e.
        let t = row_ok-type u (both_left (row_ok true u) (all_ok true rows) h) e in
        rw (build_upstream_config-kind u) (type_text-NotShadowsocks u.kind u.address u.url t.0 t.1))
      (build_upstreams-NotShadowsocks rows (both_right (row_ok true u) (all_ok true rows) h))

text-on : (o : Option Str) → bool_of o true ≡ true → not (str_eq (or_zero o) (codes "false")) ≡ true
unfolding str_eq
text-on none h = refl
text-on (some v) h = ground (arith, str_eq_iff v (codes "true"))

-- The settings say that the Middle-Proxy is on only where the rows of the table say so.
load-proxy_on :
    (kv : List (Str × Str))
    → (validate (read_settings kv)).use_middle_proxy ≡ true
    → not (str_eq (or_zero (lookup (codes "use_middle_proxy") kv)) (codes "false")) ≡ true
unfolding validate read_settings get_bool_default
load-proxy_on kv h = text-on (lookup (codes "use_middle_proxy") kv) h

-- Settings that were read from these tables.
abbrev Read : Settings → Tables → Type 0
Read settings db = IsValid db × (settings.use_middle_proxy ≡ true → proxy_on db ≡ true)

load-Read : Ensures IsValid SettingsStore.load Read IsValid
unfolding SettingsStore.load
load-Read =
    ensure_bind {R = λ kv db. IsValid db × (kv ≡ db.settings)}
      (ensure_query _ (λ db v. (v, refl)) (λ db v. v))
      (λ kv. ensure_pure _ (λ db q. (
        q.0,
        λ h.
            subst
              (λ (kv : List (Str × Str)).
                not (str_eq (or_zero (lookup (codes "use_middle_proxy") kv)) (codes "false"))
                ≡ true)
              q.1 (load-proxy_on kv h),
      )))

same_rows :
    (on : Bool) (us rows : List Upstream)
    → on ≡ true
    → rows ≡ us
    → all_ok on us ≡ true
    → all_ok true rows ≡ true
same_rows on us rows e f h = cc

module _ (json : Json) (extra : List Str) where
  generate-IsCompatible :
      (settings : Settings) (i : Instance)
      → Ensures
          (Read settings)
          (generate_instance_config json extra settings i)
          (λ cfg db. IsCompatible cfg × IsValid db)
          IsValid
  unfolding generate_instance_config list_upstream_entries generate_with_cached
      build_instance_config UpstreamStore.list SecretStore.list
  generate-IsCompatible settings i =
      ensure_bind
        {R = λ entries db.
          (settings.use_middle_proxy ≡ true → All NotShadowsocks (build_upstreams entries))
          × IsValid db}
        (ensure_bind {R = λ rows db. Read settings db × (rows ≡ db.upstreams)}
          (ensure_query _ (λ db r. (r, refl)) (λ db r. r.0))
          (λ rows. ensure_pure _ (λ db r. (
            (λ h.
                build_upstreams-NotShadowsocks rows
                  (same_rows (proxy_on db) db.upstreams rows (r.0.1 h) r.1 r.0.0.rows_ok)),
            r.0.0,
          ))))
        (λ entries.
          ensure_bind
            {R = λ _ db.
              (settings.use_middle_proxy ≡ true → All NotShadowsocks (build_upstreams entries))
              × IsValid db}
            (ensure_query _ (λ db r. r) (λ db r. r.1)) (λ secrets. ensure_pure _ (λ db r. r)))

  found-Read :
      (settings : Settings) (row : Option Instance)
      → Ensures (Read settings) (found json row) (λ _. Read settings) IsValid
  found-Read settings none = ensure_raise (not_found []) (λ db r. r.0)
  found-Read settings (some i) = ensure_pure i (λ db r. r)

  -- From tables that keep the rules of the upstreams, the configuration that a reload of an instance
  -- writes never has the Middle-Proxy on beside an upstream of type shadowsocks, whatever the calls
  -- of the database, whichever containers run, and also where the reload then ends with the error
  -- that the container is not running. The tables keep the rules, also where an error comes before
  -- the writing.
  pub reload_instance_config-IsCompatible :
      (engine : Engine) (n : ℕ)
      → Ensures IsValid
          (reload_instance_config json extra engine n)
          (λ r db. IsCompatible r.written × IsValid db)
          IsValid
  unfolding reload_instance_config InstanceStore.get_by_id
  reload_instance_config-IsCompatible engine n = ensure_bind load-Read (λ settings.
      ensure_bind {R = λ _. Read settings} (ensure_query _ (λ db r. r) (λ db r. r.0)) (λ row.
        ensure_bind {R = λ _. Read settings} (found-Read settings row) (λ i.
          ensure_bind {R = λ _. Read settings}
            (ensure_guard i.enabled _ (λ db r h. r) (λ db r. r.0))
            (λ _.
              ensure_bind {R = λ cfg db. IsCompatible cfg × IsValid db}
                (generate-IsCompatible settings i)
                (λ cfg.
                  ensure_bind {R = λ _ db. IsCompatible cfg × IsValid db}
                    (ensure_guard (engine.saves cfg) _ (λ db r h. r) (λ db r. r.1))
                    (λ _. ensure_pure _ (λ db r. r)))))))
