-- ===== src/Examples/Upstreams.antt =====
-- The upstreams at concrete inputs.
use popu_gate.Prelude.{
  ℕ, pos, ◌≡◌, refl, arith, Bool, true, false, ◌&&◌, ◌||◌, not, ltb, Str, str_eq, codes, List, [],
  ◌∷◌, none, some,
}
use popu_gate.Model.Upstream.{Upstream, UpstreamType, direct, socks5, shadowsocks}
use popu_gate.Sys.{Env, Sys, ok, tested}
use popu_gate.Settings.{lookup}
use popu_gate.UpstreamStore.Validate.{validate, is_shadowsocks, is_shadowsocks_url}
use popu_gate.UpstreamStore.Rows.{find, has_name, inserted}
use popu_gate.UpstreamStore.Valid.{all_ok}
use popu_gate.UpstreamService.Defs.{check_upstream, add}
use popu_gate.UpstreamService.Rules.{IsValid, proxy_on}
use popu_gate.UpstreamService.Failover.{check_upstream-failure}
use popu_gate.UpstreamService.Recovery.{check_upstream-success}
use popu_gate.UpstreamService.Serve.{
  Request, add_one, add_many, initial_check, change, switch, check_all, serve, handle_all-IsValid,
}
use popu_gate.UpstreamStore.Validate.{name_ok}
use popu_gate.UpstreamNames.Text.{has_double, split_host_port, split_last, split_first, has_byte}
use popu_gate.UpstreamNames.Defs.{bulk_name_host_port, generate_bulk_upstream_name}
use popu_gate.UpstreamService.Added.{add-find}
use popu_gate.UpstreamNames.Valid.{generate_bulk_upstream_name-name_ok}
use popu_gate.Examples.Samples.{calm, stormy, two_secrets}

abbrev upstream_row : ℕ → Str → UpstreamType → Bool → ℕ → Bool → Upstream
upstream_row i n kind on failures auto = record {
  id = i;
  name = n;
  kind = kind;
  address = codes "10.0.0.1:1080";
  username = [];
  password = [];
  url = codes " ss://YWVz@host:8388#tag\n";
  weight = pos 10;
  iface = [];
  enabled = on;
  ipv4 = none;
  ipv6 = some false;
  prefer = pos 4;
  bind_to_device = [];
  last_check_at = pos 0;
  last_check_ok = none;
  latency_ms = pos 0;
  last_error = [];
  fail_count = failures;
  auto_disabled = auto;
  auto_disabled_at = pos 0;
}

abbrev home : Upstream
home = upstream_row 1 (codes "home") direct true 2 false

abbrev shadow : Upstream
shadow = upstream_row 2 (codes "shadow") shadowsocks false 0 true

abbrev relay : Upstream
relay = upstream_row 3 (codes "relay") socks5 false 5 true

abbrev three_upstreams : List Upstream
three_upstreams = home ∷ shadow ∷ relay ∷ []

abbrev beginning : Env → Sys
beginning env = record {
  env = env;
  ticks = 0;
  db = record two_secrets { upstreams = three_upstreams; upstream_seq = 3 };
}

three-IsValid : IsValid (beginning stormy).db
unfolding has_name str_eq all_ok validate lookup is_shadowsocks_url
three-IsValid = record { unique = (refl, (refl, (refl, tt))); rows_ok = refl }

abbrev calls : List Request
calls =
    add_one (upstream_row 0 (codes "new") socks5 false 0 false)
    ∷ initial_check (codes "new") (upstream_row 0 (codes "new") socks5 false 0 false)
    ∷ switch (codes "shadow") true
    ∷ check_all
    ∷ add_many (shadow ∷ relay ∷ [])
    ∷ change (codes "relay") shadow
    ∷ check_all
    ∷ []

handle_all-IsValid_example : IsValid (serve calls (beginning stormy)).db
handle_all-IsValid_example = handle_all-IsValid calls (beginning stormy) three-IsValid

check_upstream-failure_example :
    (after : Upstream) × (find (codes "home") (check_upstream home (beginning calm)).1.db.upstreams
      ≡ some after)
    × (after.fail_count ≡ 3)
    × (after.enabled ≡ (true && ltb 3 3))
    × (after.auto_disabled ≡ (false || (true && not (ltb 3 3))))
unfolding find str_eq
check_upstream-failure_example =
    check_upstream-failure home home (beginning calm) (λ n. refl) refl refl

-- Each test passes in 20 ms.
abbrev sunny : Env
sunny = record calm {
  probe = λ _ _. tested (record { success = true; latency_ms = pos 20; error = [] });
}

check_upstream-success_example :
    (after : Upstream) × (find
        (codes "relay")
        (check_upstream relay (beginning sunny)).1.db.upstreams
      ≡ some after)
    × (after.fail_count ≡ 0)
    × (after.enabled
        ≡ (false || (true && not (proxy_on (beginning sunny).db && is_shadowsocks socks5))))
    × (after.auto_disabled
        ≡ (true && not (true && not (proxy_on (beginning sunny).db && is_shadowsocks socks5))))
unfolding find str_eq
check_upstream-success_example =
    check_upstream-success relay relay (beginning sunny) (λ n. refl) refl refl

-- The host is longer than its budget and has a run of other characters in it.
abbrev listed : Upstream
listed = record relay { address = codes "very--long.proxy.example.org:10800" }

generate_bulk_upstream_name-name_ok_example :
    (name_ok (generate_bulk_upstream_name listed) ≡ true)
    × (has_double (generate_bulk_upstream_name listed) ≡ false)
unfolding bulk_name_host_port split_host_port split_last split_first has_byte
generate_bulk_upstream_name-name_ok_example =
    generate_bulk_upstream_name-name_ok listed (omega arith)

abbrev fresh : Upstream
fresh = upstream_row 0 (codes "new") socks5 false 0 false

add-find_example :
    ((add fresh (beginning calm)).0 ≡ ok (record fresh { enabled = true; id = 4 }))
    × (find (codes "new") (add fresh (beginning calm)).1.db.upstreams
        ≡ some (inserted 4 (record fresh { enabled = true })))
unfolding validate has_name str_eq lookup
add-find_example = add-find fresh (beginning calm) (λ n. refl) refl refl refl
