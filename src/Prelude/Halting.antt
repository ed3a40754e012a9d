-- ===== src/Prelude/Halting.antt =====
-- Code that may stop the process: a division by zero, an abort, a NULL that is followed, an exit, or a
-- lock that is waited for and never free.
use mathlib.Core.Path.{◌≡◌, refl}

pub data Halt : Type 0 where
  divided_by_zero aborted null_followed exited blocked : Halt

pub data Outcome {ℓ} (A : Type ℓ) : Type ℓ where
  done : A → Outcome A
  halted : Halt → Outcome A

infixl 5 ◌>>=◌
abbrev pub ◌>>=◌ {ℓ κ} : {A : Type ℓ} {B : Type κ} → Outcome A → (A → Outcome B) → Outcome B
done a >>= f = f a
halted h >>= f = halted h

-- A successful chain has a successful first step.
pub >>=-eq-done {ℓ κ} :
    {A : Type ℓ} {B : Type κ} (m : Outcome A) (f : A → Outcome B) {b : B}
    → (m >>= f) ≡ done b
    → (a : A) × (m ≡ done a) × (f a ≡ done b)
>>=-eq-done (done a) f h = (a, refl, h)
>>=-eq-done (halted x) f h = cc

pub done-injective {ℓ} : {A : Type ℓ} {a b : A} → done a ≡ done b → a ≡ b
done-injective e = cc
