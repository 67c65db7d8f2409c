-- ===== src/Base/Answer.antt =====
-- What a call of an external component gives back: a value, or the exception that it throws.
use mathlib.Core.Path.{◌≡◌, refl}
use mathlib.Core.Logic.{◌⊎◌, inl, inr}
use btcr_did_method.Base.Run.{Exception, Run, pure, throw}

pub data Answer (A : Type 0) : Type 0 where
  answer : A → Answer A
  raise : Exception → Answer A

infixl 5 ◌>>=◌
abbrev pub ◌>>=◌ : {A B : Type 0} → Answer A → (A → Answer B) → Answer B
answer a >>= f = f a
raise e >>= f = raise e

-- The call as a step of a program.
abbrev pub call : {A : Type 0} → Answer A → Run A
call (answer a) = pure a
call (raise e) = throw e

pub Answer-cases :
    {A : Type 0} (x : Answer A) → ((a : A) × (x ≡ answer a)) ⊎ ((e : Exception) × (x ≡ raise e))
Answer-cases (answer a) = inl (a, refl)
Answer-cases (raise e) = inr (e, refl)
