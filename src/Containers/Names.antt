-- ===== src/Containers/Names.antt =====
-- The names of containers: `ContainerName` of internal/model/instance.go, and the names of the
-- temporary containers.
use popu_gate.Prelude.{
  ℕ, suc, ◌≡◌, ◌≢◌, refl, sym, ap, ◌∙◌, ℤ, pos, negsuc, true, Str, codes, [], ◌∷◌, ◌++◌, some,
  arith,
}
use popu_gate.Model.Instance.{Instance}
use popu_gate.SecretStore.Expiry.{parse_digits}
use popu_gate.Format.Decimal.{decimal, format_int}
use popu_gate.Format.Parse.{parse_digits-decimal, starts_digit, starts_digit-decimal}

-- fmt.Sprintf("popugate-telemt-%d", port)
unfoldable pub port_container : ℤ → Str
unfolding format_int
port_container port = codes "popugate-telemt-" ++ format_int port

-- `ContainerName`
unfoldable pub container_name : Instance → Str
unfolding port_container
container_name i = port_container i.port

behind : Str → Str → Str
behind [] s = s
behind (c ∷ p) [] = []
behind (c ∷ p) (d ∷ s) = behind p s

behind-append : (p s : Str) → behind p (p ++ s) ≡ s
unfolding behind
behind-append [] s = refl
behind-append (c ∷ p) s = behind-append p s

some_value : {A : Type 0} (a b : A) → some a ≡ some b → a ≡ b
some_value a b h = cc

decimal_injective : (n m : ℕ) → decimal n ≡ decimal m → n ≡ m
decimal_injective n m h =
    some_value n m (sym (parse_digits-decimal n) ∙ (ap (parse_digits 0) h ∙ parse_digits-decimal m))

no_sign : (n m : ℕ) → format_int (pos n) ≢ format_int (negsuc m)
unfolding format_int starts_digit
no_sign n m h =
    let k : true ≡ starts_digit (format_int (negsuc m)) =
      sym (starts_digit-decimal n) ∙ ap starts_digit h in
    cc k

tail_eq : (c : ℕ) (s t : Str) → c ∷ s ≡ c ∷ t → s ≡ t
tail_eq c s t h = cc

pub format_int_injective : (a b : ℤ) → format_int a ≡ format_int b → a ≡ b
unfolding format_int
format_int_injective (pos n) (pos m) h = ap pos (decimal_injective n m h)
format_int_injective (pos n) (negsuc m) h = absurd (no_sign n m h)
format_int_injective (negsuc n) (pos m) h = absurd (no_sign m n (sym h))
format_int_injective (negsuc n) (negsuc m) h =
    let k = decimal_injective (suc n) (suc m) (tail_eq b'-' _ _ h) in ground (arith, k)

-- Two ports have one container name only if they are equal.
pub port_container_injective : (a b : ℤ) → port_container a ≡ port_container b → a ≡ b
unfolding port_container
port_container_injective a b h = format_int_injective a b (
    sym (behind-append (codes "popugate-telemt-") (format_int a))
    ∙ (ap (behind (codes "popugate-telemt-")) h
        ∙ behind-append (codes "popugate-telemt-") (format_int b)))
