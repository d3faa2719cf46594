-- ===== src/Common/Loop.antt =====
-- `for (;;)` with `break` and `return`: a body that goes on with a new state or leaves with a result.
use Prim.Native.Nat.{ℕ, zero, suc, ◌<◌}
use mathlib.Core.Path.{◌≡◌, ap}
use native.Mathlib.Omega.{arith}
use linux_tcp_servers.Common.Endings.{Fault, Result, ok, thrown, undefined, out_of_fuel}

pub data Step {ℓ κ} (S : Type ℓ) (R : Type κ) : Type (ℓ ⊔ κ) where
  continue : S → Step S R
  break : R → Step S R

module _ {ℓ κ} {E : Type 0} {S : Type ℓ} {R : Type κ} where
  abbrev resume : (S → Result E R) → Result E (Step S R) → Result E R
  resume rest (ok (continue t)) = rest t
  resume rest (ok (break r)) = ok r
  resume rest (thrown e) = thrown e
  resume rest (undefined e) = undefined e
  resume rest out_of_fuel = out_of_fuel

  -- `fuel` bounds the rounds.
  unfoldable pub repeat : ℕ → (S → Result E (Step S R)) → S → Result E R
  repeat zero body s = out_of_fuel
  repeat (suc fuel) body s = resume (λ t. repeat fuel body t) (body s)

  -- What one round must do for the loop to end in `Q`: keep `I` and lower the measure, or leave.
  abbrev pub Round :
      (S → Type 0) → (Result E R → Type 0) → (S → ℕ) → ℕ → Result E (Step S R) → Type 0
  Round I Q measure bound (ok (continue t)) = I t × (measure t < bound)
  Round I Q measure bound (ok (break r)) = Q (ok r)
  Round I Q measure bound (thrown e) = Q (thrown e)
  Round I Q measure bound (undefined e) = Q (undefined e)
  Round I Q measure bound out_of_fuel = Q out_of_fuel

  module _ (I : S → Type 0) (Q : Result E R → Type 0) (measure : S → ℕ) where
    resume_rule :
        (rest : S → Result E R) (bound : ℕ)
        → ((t : S) → I t → measure t < bound → Q (rest t))
        → (o : Result E (Step S R)) → Round I Q measure bound o
        → Q (resume rest o)
    resume_rule rest bound h (ok (continue t)) r = h t r.0 r.1
    resume_rule rest bound h (ok (break x)) r = r
    resume_rule rest bound h (thrown e) r = r
    resume_rule rest bound h (undefined e) r = r
    resume_rule rest bound h out_of_fuel r = r

    -- Total correctness: with the measure below the fuel the loop ends, and ends in `Q`.
    pub repeat_rule :
        (body : S → Result E (Step S R))
        → ((s : S) → I s → Round I Q measure (measure s) (body s))
        → (fuel : ℕ) (s : S) → measure s < fuel
        → I s
        → Q (repeat fuel body s)
    unfolding repeat
    repeat_rule body keep zero s m h = absurd (omega arith)
    repeat_rule body keep (suc fuel) s m h =
        resume_rule (λ t. repeat fuel body t) (measure s)
          (λ t i lt. repeat_rule body keep fuel t (omega arith) i) (body s) (keep s h)

  module _ (I : S → Type 0) (Q : Result E R → Type 0) where
    -- Partial correctness: `Q` must hold of a loop that is out of fuel.
    pub repeat_keep :
        (body : S → Result E (Step S R))
        → Q out_of_fuel
        → ((s : S) → I s → Round I Q (λ s. 0) 1 (body s))
        → (fuel : ℕ) (s : S) → I s
        → Q (repeat fuel body s)
    unfolding repeat
    repeat_keep body out keep zero s h = out
    repeat_keep body out keep (suc fuel) s h =
        resume_rule I Q (λ s. 0) (λ t. repeat fuel body t) 1
          (λ t i lt. repeat_keep body out keep fuel t i) (body s) (keep s h)

  -- A first round that leaves the loop.
  pub repeat-undefined :
      (fuel : ℕ) (body : S → Result E (Step S R)) (s : S) (e : Fault)
      → body s ≡ undefined e
      → repeat (suc fuel) body s ≡ undefined e
  unfolding repeat
  repeat-undefined fuel body s e h = ap (resume (λ t. repeat fuel body t)) h

  pub repeat-break :
      (fuel : ℕ) (body : S → Result E (Step S R)) (s : S) (r : R)
      → body s ≡ ok (break r)
      → repeat (suc fuel) body s ≡ ok r
  unfolding repeat
  repeat-break fuel body s r h = ap (resume (λ t. repeat fuel body t)) h
