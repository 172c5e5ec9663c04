-- ===== src/UpstreamService/Batch.antt =====
-- `AddMultiple` of internal/service/upstream_service.go under the invariant of the upstreams.
use popu_gate.Prelude.{
  ◌≡◌, refl, Bool-cases, inl, inr, Bool, true, false, not, ◌&&◌, Str, List, [], ◌∷◌, Option, none,
  some, arith,
}
use popu_gate.Model.Upstream.{Upstream}
use popu_gate.Model.Tables.{Tables}
use popu_gate.Sys.Keeps.{Keeps}
use popu_gate.Sys.Ensures.{
  Ensures, ensure_under, ensure_bind, ensure_pure, ensure_raise, ensure_guard, ensure_weaken,
  ensure_write, ensure_transaction, Ensures-Keeps,
}
use popu_gate.UpstreamStore.Validate.{validate, is_shadowsocks}
use popu_gate.UpstreamStore.Defs as Store
use popu_gate.UpstreamService.Defs.{chosen_more, chosen, add_chosen, add_multiple}
use popu_gate.UpstreamService.Rules.{proxy_on, IsValid, middle_proxy_enabled-lem}
use popu_gate.UpstreamService.Valid.{with_row-IsValid}

-- With the Middle-Proxy none of the rows is a shadowsocks upstream.
unfoldable fits : Bool → List Upstream → Bool
fits on [] = true
fits on (u ∷ us) = not (on && is_shadowsocks u.kind) && fits on us

abbrev Fits : Bool → Option (List Upstream × List Str) → Type 0
Fits on none = Unit
Fits on (some (rows, skipped)) = fits on rows ≡ true

chosen_more-Fits :
    (on : Bool) (u : Upstream) (o : Option (List Upstream × List Str))
    → Fits on o
    → Fits on (chosen_more (is_shadowsocks u.kind && on) u o)
unfolding fits
chosen_more-Fits on u none h = tt
chosen_more-Fits on u (some (rows, skipped)) h = elim (Bool-cases (is_shadowsocks u.kind && on)) [
  | inl e ↦ rw e h
  | inr e ↦ rw e (ground arith)
]

chosen-Fits : (on : Bool) (us : List Upstream) → Fits on (chosen on us)
unfolding chosen fits
chosen-Fits on [] = refl
chosen-Fits on (u ∷ us) = elim (Bool-cases (validate u)) [
  | inl e ↦ rw e (chosen_more-Fits on u (chosen on us) (chosen-Fits on us))
  | inr e ↦ rw e tt
]

abbrev CanAdd : List Upstream → Tables → Type 0
CanAdd us db = IsValid db × (fits (proxy_on db) us ≡ true)

row-CanAdd :
    (u : Upstream) (us : List Upstream) (db : Tables)
    → validate u ≡ true
    → CanAdd (u ∷ us) db
    → CanAdd us (Store.with_row_or_same u db)
unfolding fits
row-CanAdd u us db v c = elim (Bool-cases (Store.refused u db.upstreams)) [
  | inl e ↦ rw e (c.0, ground (arith, c.1))
  | inr e ↦ rw e (with_row-IsValid u db v (c.0, ground (arith, c.1)) e, ground (arith, c.1))
]

insert_each-IsValid :
    (us : List Upstream) → Ensures (CanAdd us) (Store.insert_each us) (λ _. IsValid) IsValid
unfolding Store.insert_each
insert_each-IsValid [] = ensure_pure [] (λ db c. c.0)
insert_each-IsValid (u ∷ us) =
    ensure_bind {R = λ _ db. CanAdd (u ∷ us) db × (validate u ≡ true)}
      (ensure_guard (validate u) _ (λ db c e. (c, e)) (λ db c. c.0))
      (λ _. ensure_under (λ e.
        ensure_bind {R = λ _. CanAdd us}
          (ensure_write _ _ (λ db c. row-CanAdd u us db e c) (λ db c. c.0))
          (λ came. ensure_bind (insert_each-IsValid us) (λ more. ensure_pure _ (λ db v. v)))))

weaker_fits :
    (on b : Bool) (us : List Upstream)
    → (on ≡ false → b ≡ false)
    → fits on us ≡ true
    → fits b us ≡ true
unfolding fits
weaker_fits on b [] k h = refl
weaker_fits on b (u ∷ us) k h = ground (arith, weaker_fits on b us k, k)

add_chosen-IsValid :
    (on : Bool) (o : Option (List Upstream × List Str))
    → Fits on o
    → Ensures
        (λ db. IsValid db × (on ≡ false → proxy_on db ≡ false))
        (add_chosen o)
        (λ _. IsValid)
        IsValid
unfolding add_chosen Store.create_multiple
add_chosen-IsValid on none h = ensure_raise _ (λ db p. p.0)
add_chosen-IsValid on (some ([], skipped)) h = ensure_pure _ (λ db p. p.0)
add_chosen-IsValid on (some (u ∷ us, skipped)) h =
    ensure_bind {R = λ _. IsValid}
      (ensure_transaction
        (ensure_weaken (λ db p. (p.0, weaker_fits on (proxy_on db) (u ∷ us) p.1 h))
          (insert_each-IsValid (u ∷ us)) (λ _ db v. v) (λ db v. v))
        (λ db p. p.0))
      (λ inserted. ensure_pure _ (λ db v. v))

pub add_multiple-IsValid : (us : List Upstream) → Keeps IsValid (add_multiple us)
unfolding add_multiple
add_multiple-IsValid us = Ensures-Keeps (
    ensure_bind middle_proxy_enabled-lem
      (λ on. add_chosen-IsValid on (chosen on us) (chosen-Fits on us)))
