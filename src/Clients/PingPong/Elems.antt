-- ===== src/Clients/PingPong/Elems.antt =====
-- The assignment to an element of a list.
use linux_tcp_servers.Common.{
  ℕ, zero, suc, ◌≡◌, ◌≢◌, refl, ap, ◌⊎◌, inl, inr, List, [], ◌∷◌, length, some, arith,
}
use linux_tcp_servers.Arguments.{get_elem?}
use linux_tcp_servers.Clients.PingPong.{set_elem}

pub unchanged :
    {A : Type 0} (xs : List A) (k : ℕ) (x : A) → get_elem? xs k ≡ some x → set_elem xs k x ≡ xs
unchanged [] k x e = refl
unchanged (y ∷ xs) zero x e = cc
unchanged (y ∷ xs) (suc k) x e = ap (λ l. y ∷ l) (unchanged xs k x e)

pub length-set_elem :
    {A : Type 0} (xs : List A) (k : ℕ) (x : A) → length (set_elem xs k x) ≡ length xs
length-set_elem [] k x = refl
length-set_elem (y ∷ xs) zero x = refl
length-set_elem (y ∷ xs) (suc k) x = omega (arith, length-set_elem xs k x)

pub set_elem_cases :
    {A : Type 0} (xs : List A) (k j : ℕ) (x y : A)
    → get_elem? (set_elem xs k x) j ≡ some y
    → ((k ≡ j) × (x ≡ y)) ⊎ ((k ≢ j) × (get_elem? xs j ≡ some y))
set_elem_cases [] k j x y e = absurd cc
set_elem_cases (z ∷ xs) zero zero x y e = inl (refl, cc)
set_elem_cases (z ∷ xs) zero (suc j) x y e = inr ((λ p. omega (arith, p)), e)
set_elem_cases (z ∷ xs) (suc k) zero x y e = inr ((λ p. omega (arith, p)), e)
set_elem_cases (z ∷ xs) (suc k) (suc j) x y e = elim (set_elem_cases xs k j x y e) [
  | inl same ↦ inl (omega (arith, same.0), same.1)
  | inr other ↦ inr ((λ p. other.0 (omega (arith, p))), other.1)
]
