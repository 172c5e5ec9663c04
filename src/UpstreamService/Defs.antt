-- ===== src/UpstreamService/Defs.antt =====
-- internal/service/upstream_service.go: the methods of `UpstreamService`.
use popu_gate.Prelude.{
  ℤ, pos, Bool, true, false, not, ◌&&◌, ◌||◌, Str, codes, str_eq, List, [], ◌∷◌, Option, none, some,
  if◌then◌else◌, ltb,
}
use popu_gate.Model.Upstream.{Upstream}
use popu_gate.Sys.{
  M, Probe, tested, untested, pure, raise, guard, attempt, now, test_upstream, ◌>>=◌, ◌>>◌,
  already_exists, not_found, invalid_upstream, middle_proxy_on,
}
use popu_gate.SecretStore.{unix}
use popu_gate.Settings.{get}
use popu_gate.UpstreamStore.Validate.{validate, is_shadowsocks}
use popu_gate.UpstreamStore.Defs as Store

abbrev pub unless_false : Option Str → Bool
unless_false none = true
unless_false (some v) = not (str_eq v (codes "false"))

-- `middleProxyEnabled`, with the settings store wired: an unreadable setting counts as enabled.
unfoldable pub middle_proxy_enabled : M Bool
middle_proxy_enabled = do v ← attempt (get (codes "use_middle_proxy")); pure (unless_false v)

unfoldable pub ensure_shadowsocks_allowed : Upstream → M (Unit {0})
unfolding middle_proxy_enabled
ensure_shadowsocks_allowed u =
    if is_shadowsocks u.kind
    then (do on ← middle_proxy_enabled; guard (not on) middle_proxy_on)
    else pure tt

-- Whether the test passed, its latency and its error.
abbrev pub resolve_test_result : Probe → Bool × ℤ × Str
resolve_test_result (untested message) = (false, pos 0, message)
resolve_test_result (tested r) = (r.success, r.latency_ms, if r.success then [] else r.error)

unfoldable pub record_health : Str → Probe → M (Option (Unit {0}))
record_health name p = attempt (
    Store.update_health name (resolve_test_result p).0 (resolve_test_result p).1
      (resolve_test_result p).2)

-- The update of `handleFailover`; the engine's reload and the message behind it are not modelled.
unfoldable pub failover_row : Str → Upstream → M (Unit {0})
failover_row name latest =
    if ltb latest.fail_count 3 || not latest.enabled
    then pure tt
    else (do t ← now; attempt (Store.disable_automatically name (unix t)); pure tt)

abbrev pub failover_found : Str → Option (Option Upstream) → M (Unit {0})
failover_found name none = pure tt
failover_found name (some none) = pure tt
failover_found name (some (some latest)) = failover_row name latest

unfoldable pub handle_failover : Str → M (Unit {0})
handle_failover name = do found ← attempt (Store.get_by_name name); failover_found name found

abbrev pub recover_if : Upstream → Option (Unit {0}) → M (Unit {0})
recover_if u none = pure tt
recover_if u (some allowed) = do attempt (Store.enable_automatically u.name); pure tt

unfoldable pub handle_auto_recovery : Upstream → M (Unit {0})
unfolding ensure_shadowsocks_allowed
handle_auto_recovery u = do allowed ← attempt (ensure_shadowsocks_allowed u); recover_if u allowed

abbrev pub after_result : Upstream → Bool → M (Unit {0})
after_result u false = handle_failover u.name
after_result u true = if u.auto_disabled then handle_auto_recovery u else pure tt

unfoldable pub after_test : Upstream → Probe → M (Unit {0})
unfolding record_health
after_test u p = do record_health u.name p; after_result u (resolve_test_result p).0

unfoldable pub check_upstream : Upstream → M (Unit {0})
unfolding after_test
check_upstream u = do p ← test_upstream u; after_test u p

unfoldable pub check_each : List Upstream → M (Unit {0})
unfolding check_upstream
check_each [] = pure tt
check_each (u ∷ us) = do
  (if not u.enabled && not u.auto_disabled then pure tt else check_upstream u)
  check_each us

unfoldable pub check_all_upstreams : M (Unit {0})
unfolding check_each
check_all_upstreams = do us ← Store.list; check_each us

abbrev pub or_not_found : Str → Option Upstream → M Upstream
or_not_found name none = raise (not_found name)
or_not_found name (some u) = pure u

-- The row of a name, or the error that it is missing.
abbrev pub require : Str → M Upstream
require name = do found ← Store.get_by_name name; or_not_found name found

abbrev pub or_exists : Str → Option Upstream → M (Unit {0})
or_exists name none = pure tt
or_exists name (some u) = raise (already_exists name)

abbrev pub ensure_free : Str → M (Unit {0})
ensure_free name = do found ← Store.get_by_name name; or_exists name found

-- `Add`; the check that it starts in the background is `run_initial_health_check`.
unfoldable pub add : Upstream → M Upstream
unfolding ensure_shadowsocks_allowed
add u = do
  guard (validate u) invalid_upstream
  ensure_shadowsocks_allowed u
  ensure_free u.name
  Store.create (record u { enabled = true })

unfoldable pub run_initial_health_check : Str → Upstream → M (Unit {0})
unfolding record_health
run_initial_health_check name u = do p ← test_upstream u; record_health name p; pure tt

unfoldable pub update : Str → Upstream → M (Unit {0})
unfolding ensure_shadowsocks_allowed
update name u = do
  guard (validate u) invalid_upstream
  ensure_shadowsocks_allowed u
  existing ← require name
  Store.update name (record u { name = existing.name; enabled = existing.enabled })

unfoldable pub remove : Str → M (Unit {0})
remove name = do require name; Store.delete name

abbrev pub allowed_to : Bool → Upstream → M (Unit {0})
allowed_to true u = ensure_shadowsocks_allowed u
allowed_to false u = pure tt

abbrev pub clear_if_off : Bool → Str → M (Unit {0})
clear_if_off true name = pure tt
clear_if_off false name = do attempt (Store.clear_health name); pure tt

unfoldable pub toggle : Str → Bool → M (Unit {0})
unfolding ensure_shadowsocks_allowed
toggle name enable = do
  existing ← require name
  allowed_to enable existing
  Store.update_enabled name enable
  clear_if_off enable name

-- `Test`: the result of the test, stored as far as the database lets it.
unfoldable pub test : Str → M Probe
unfolding record_health
test name = do u ← require name; p ← test_upstream u; record_health name p; pure p

-- The loop of `AddMultiple`: the rows to add and the names left out; `none` where one is invalid.
abbrev pub chosen_more :
    Bool → Upstream → Option (List Upstream × List Str) → Option (List Upstream × List Str)
chosen_more skip u none = none
chosen_more skip u (some (rows, skipped)) =
    if skip
    then some (rows, u.name ∷ skipped)
    else some (record u { enabled = true } ∷ rows, skipped)

unfoldable pub chosen : Bool → List Upstream → Option (List Upstream × List Str)
chosen on [] = some ([], [])
chosen on (u ∷ us) =
    if validate u then chosen_more (is_shadowsocks u.kind && on) u (chosen on us) else none

unfoldable pub add_chosen : Option (List Upstream × List Str) → M (List Upstream × List Str)
add_chosen none = raise invalid_upstream
add_chosen (some ([], skipped)) = pure ([], skipped)
add_chosen (some (u ∷ us, skipped)) = do
  inserted ← Store.create_multiple (u ∷ us)
  pure (inserted, skipped)

unfoldable pub add_multiple : List Upstream → M (List Upstream × List Str)
unfolding middle_proxy_enabled chosen add_chosen
add_multiple us = do on ← middle_proxy_enabled; add_chosen (chosen on us)
