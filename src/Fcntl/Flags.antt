-- ===== src/Fcntl/Flags.antt =====
-- The binary digits of a word of flags.
use Prim.Native.Nat.{digits, two, bit_or-bitwise, bit_and-bitwise, ◌/◌}
use linux_tcp_servers.Common.{
  ℕ, zero, suc, ◌+◌, ◌*◌, ◌%◌, ◌≤◌, ◌≡◌, refl, min, max, bit_or, bit_and, arith,
}

abbrev or_digits : ℕ → ℕ → ℕ → ℕ
or_digits = digits (λ b. b) max

abbrev and_digits : ℕ → ℕ → ℕ → ℕ
and_digits = digits (λ b. zero) min

and_digits_same : (m b : ℕ) → b ≤ m → and_digits m b b ≡ b
and_digits_same zero b h = omega arith
and_digits_same (suc m) zero h = refl
and_digits_same (suc m) (suc b) h = rw (and_digits_same m (suc b / two) (omega arith)) (omega arith)

-- One digit more.
absorb_one :
    (m x y p b : ℕ)
    → x ≡ y * two + max p (b % two)
    → p ≤ 1
    → x ≤ m
    → ((k : ℕ) → y ≤ k → and_digits k y (b / two) ≡ b / two)
    → and_digits m x b ≡ b
absorb_one zero x y p b e small h more = omega (arith, more 0 (omega arith))
absorb_one (suc m) zero y p b e small h more = omega (arith, more 0 (omega arith))
absorb_one (suc m) (suc x) y p b e small h more =
    let half : suc x / two ≡ y = omega arith in rw (half, more m (omega arith)) (omega arith)

absorb : (n m a b : ℕ) → a ≤ n → or_digits n a b ≤ m → and_digits m (or_digits n a b) b ≡ b
absorb zero m a b low h = and_digits_same m b h
absorb (suc n) m zero b low h = and_digits_same m b h
absorb (suc n) m (suc a) b low h =
    absorb_one m (or_digits (suc n) (suc a) b) (or_digits n (suc a / two) (b / two)) (suc a % two) b
      refl (omega arith) h (λ k g. absorb n k (suc a / two) (b / two) (omega arith) g)

pub bit_and-bit_or : (a b : ℕ) → bit_and (bit_or a b) b ≡ b
bit_and-bit_or a b =
    rw (bit_or-bitwise a b, bit_and-bitwise (or_digits a a b) b)
      (absorb a (or_digits a a b) a b (omega arith) (omega arith))
