-- ===== src/UpstreamService/Added.antt =====
-- `Add` of internal/service/upstream_service.go where the upstream is allowed.
use popu_gate.Prelude.{
  ℕ, suc, ◌≡◌, refl, true, false, ◌&&◌, Str, codes, str_eq, str_eq_refl, List, [], ◌∷◌, none, some,
  arith, Bool-cases, inl, inr,
}
use popu_gate.Model.Upstream.{Upstream, UpstreamType, direct, socks5, socks4, shadowsocks, other}
use popu_gate.Sys.{Sys, ok, query, exec, attempt}
use popu_gate.Sys.Quiet.{Quiet, passed_by}
use popu_gate.Settings.{lookup, get, or_zero}
use popu_gate.UpstreamStore.Validate.{validate, is_shadowsocks, target_ok}
use popu_gate.UpstreamStore.Rows.{find, has_name, append_row, inserted, known_kind}
use popu_gate.UpstreamStore.Defs as Store
use popu_gate.UpstreamService.Defs.{middle_proxy_enabled, ensure_shadowsocks_allowed, add}
use popu_gate.UpstreamService.Rules.{proxy_on}

find-absent : (n : Str) (rs : List Upstream) → has_name n rs ≡ false → find n rs ≡ none
unfolding find has_name
find-absent n [] h = refl
find-absent n (r ∷ rs) h = ground (arith, find-absent n rs)

find-append_row :
    (n : Str) (rs : List Upstream) (r : Upstream)
    → has_name n rs ≡ false
    → str_eq r.name n ≡ true
    → find n (append_row rs r) ≡ some r
unfolding find has_name append_row
find-append_row n [] r h e = ground (arith, e)
find-append_row n (x ∷ rs) r h e = ground (arith, find-append_row n rs r)

known : (k : UpstreamType) (a l : Str) → target_ok k a l ≡ true → known_kind k ≡ true
known direct a l h = refl
known socks5 a l h = refl
known socks4 a l h = refl
known shadowsocks a l h = refl
known (other t) a l h = cc

not_refused :
    (u : Upstream) (rs : List Upstream)
    → validate u ≡ true
    → has_name u.name rs ≡ false
    → Store.refused (record u { enabled = true }) rs ≡ false
unfolding validate
not_refused u rs v h = ground (arith, known u.kind u.address u.url)

ensure_shadowsocks_allowed-Quiet :
    (u : Upstream) (s : Sys)
    → Quiet s.env
    → (proxy_on s.db && is_shadowsocks u.kind) ≡ false
    → (t : ℕ) × (ensure_shadowsocks_allowed u s ≡ (ok tt, passed_by t s.db s))
unfolding ensure_shadowsocks_allowed middle_proxy_enabled get query attempt
ensure_shadowsocks_allowed-Quiet u s q c = elim (Bool-cases (is_shadowsocks u.kind)) [
  | inl k ↦
      elim (Bool-cases
        (str_eq (or_zero (lookup (codes "use_middle_proxy") s.db.settings)) (codes "false"))) [
          | inl b ↦ (suc s.ticks, rw (k, q s.ticks, b) refl)
          | inr b ↦ ground (arith, c, k, b)
        ]
  | inr k ↦ (s.ticks, rw k refl)
]

-- While no call of the database fails, an addition of an upstream that passes Validate, has a free
-- name, and is no shadowsocks upstream while the Middle-Proxy is on returns it with the next id,
-- and behind it the row of that name is the upstream, enabled and without health data.
pub add-find :
    (u : Upstream) (s : Sys)
    → Quiet s.env
    → validate u ≡ true
    → (proxy_on s.db && is_shadowsocks u.kind) ≡ false
    → has_name u.name s.db.upstreams ≡ false
    → ((add u s).0 ≡ ok (record u { enabled = true; id = suc s.db.upstream_seq }))
      × (find u.name (add u s).1.db.upstreams
          ≡ some (inserted (suc s.db.upstream_seq) (record u { enabled = true })))
unfolding add Store.get_by_name Store.create query exec
add-find u s q v c h =
    let (t, e) = ensure_shadowsocks_allowed-Quiet u s q c in
    let absent = find-absent u.name s.db.upstreams h in
    let free = not_refused u s.db.upstreams v h in
    (
      rw (v, e, q t, absent, q (suc t), free) refl,
      rw (v, e, q t, absent, q (suc t), free)
          (find-append_row u.name s.db.upstreams
            (inserted (suc s.db.upstream_seq) (record u { enabled = true })) h
            (str_eq_refl u.name)),
    )
