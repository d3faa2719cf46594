-- ===== src/Common/Endings.antt =====
-- How a piece of the program ends, and the chaining of pieces.
use Prim.Native.String.{String}

-- What undefined behaviour a run meets first.
pub data Fault : Type 0 where
  out_of_bounds dangling null_pointer : Fault

-- `thrown` is an exception, with what is known where it is thrown; `out_of_fuel` is a loop that has not
-- ended in the given rounds.
pub data Result {ℓ} (E : Type 0) (A : Type ℓ) : Type ℓ where
  ok : A → Result E A
  thrown : E → Result E A
  undefined : Fault → Result E A
  out_of_fuel : Result E A

-- Of an exception only the text of the `std::runtime_error` is kept.
abbrev pub Outcome {ℓ} : Type ℓ → Type ℓ
Outcome A = Result String A

infixl 5 ◌>>=◌
abbrev pub ◌>>=◌ {ℓ κ} :
    {E : Type 0} {A : Type ℓ} {B : Type κ} → Result E A → (A → Result E B) → Result E B
ok a >>= f = f a
thrown e >>= f = thrown e
undefined e >>= f = undefined e
out_of_fuel >>= f = out_of_fuel

-- The end of a scope, whether it is left with a value or by an exception.
abbrev pub leaving {ℓ κ} :
    {E G : Type 0} {A : Type ℓ} {B : Type κ} → (E → G) → (A → B) → Result E A → Result G B
leaving f g (ok a) = ok (g a)
leaving f g (thrown e) = thrown (f e)
leaving f g (undefined e) = undefined e
leaving f g out_of_fuel = out_of_fuel

-- The run ends, without exception: what it returns satisfies `P`, or it meets a fault that `F` allows.
abbrev pub Ends {ℓ} :
    {E : Type 0} {A : Type ℓ} → (Fault → Type 0) → (A → Type 0) → Result E A → Type 0
Ends F P (ok a) = P a
Ends F P (thrown e) = ⊥
Ends F P (undefined e) = F e
Ends F P out_of_fuel = ⊥

-- It returns, with a result that satisfies the predicate.
abbrev pub Returns {ℓ} : {E : Type 0} {A : Type ℓ} → (A → Type 0) → Result E A → Type 0
Returns P o = Ends (λ e. ⊥) P o

module _ {ℓ} {E : Type 0} {A : Type ℓ} (F : Fault → Type 0) (P : A → Type 0) where
  pub Ends-and :
      (Q : A → Type 0) (r : Result E A) → Ends F P r → Ends F Q r → Ends F (λ a. P a × Q a) r
  Ends-and Q (ok a) p q = (p, q)
  Ends-and Q (thrown e) p q = p
  Ends-and Q (undefined e) p q = p
  Ends-and Q out_of_fuel p q = p

  pub Ends-map :
      (G : Fault → Type 0) (Q : A → Type 0) (r : Result E A)
      → ((e : Fault) → F e → G e)
      → ((a : A) → P a → Q a)
      → Ends F P r
      → Ends G Q r
  Ends-map G Q (ok a) f g h = g a h
  Ends-map G Q (thrown e) f g h = h
  Ends-map G Q (undefined e) f g h = f e h
  Ends-map G Q out_of_fuel f g h = h

  -- The rule for a chain.
  pub Ends-bind {κ} :
      {B : Type κ} (Q : B → Type 0) (r : Result E A) (f : A → Result E B)
      → Ends F P r
      → ((a : A) → P a → Ends F Q (f a))
      → Ends F Q (r >>= f)
  Ends-bind Q (ok a) f p k = k a p
  Ends-bind Q (thrown e) f p k = p
  Ends-bind Q (undefined e) f p k = p
  Ends-bind Q out_of_fuel f p k = p

-- If the run returns, then with a result that satisfies `P`.
abbrev pub Partly {ℓ} : {E : Type 0} {A : Type ℓ} → (A → Type 0) → Result E A → Type 0
Partly P (ok a) = P a
Partly P (thrown e) = Unit
Partly P (undefined e) = Unit
Partly P out_of_fuel = Unit

pub Ends-with {ℓ} :
    {E : Type 0} {A : Type ℓ} (F : Fault → Type 0) (P Q : A → Type 0) (r : Result E A)
    → Ends F P r
    → Partly Q r
    → Ends F Q r
Ends-with F P Q (ok a) h q = q
Ends-with F P Q (thrown e) h q = h
Ends-with F P Q (undefined e) h q = h
Ends-with F P Q out_of_fuel h q = h
