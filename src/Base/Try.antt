-- ===== src/Base/Try.antt =====
-- A Go result with an error: the value, or what went wrong.
use mathlib.Core.Path.{◌≡◌, refl}
use mathlib.Core.Logic.{◌⊎◌, inl, inr}
use mathlib.Core.Option.{Option, none, some}
use native.Mathlib.Omega.{arith}

pub data Try (E : Type 0) (A : Type 0) : Type 0 where
  done : A → Try E A
  failed : E → Try E A

module _ {E : Type 0} where
  infixl 5 ◌>>=◌ ◌>>◌
  abbrev pub ◌>>=◌ : {A : Type 0} {B : Type 0} → Try E A → (A → Try E B) → Try E B
  done a >>= f = f a
  failed e >>= f = failed e

  abbrev pub ◌>>◌ : {B : Type 0} → Try E Unit → Try E B → Try E B
  m >> k = m >>= λ _. k

  -- The value, or the error where there is none.
  abbrev pub or_fail : {A : Type 0} → E → Option A → Try E A
  or_fail e none = failed e
  or_fail e (some a) = done a

  -- A successful chain has a successful first step.
  pub >>=-eq-done :
      {A : Type 0} {B : Type 0} (m : Try E A) (f : A → Try E B) {b : B}
      → (m >>= f) ≡ done b
      → (a : A) × (m ≡ done a) × (f a ≡ done b)
  >>=-eq-done (done a) f h = (a, refl, h)
  >>=-eq-done (failed e) f h = ground arith

-- What a caller sees of the value, if there is one.
abbrev pub value : {E : Type 0} {A : Type 0} → Try E A → Option A
value (done a) = some a
value (failed e) = none

pub Try-cases :
    {E : Type 0} {A : Type 0} (t : Try E A) → ((a : A) × (t ≡ done a)) ⊎ ((e : E) × (t ≡ failed e))
Try-cases (done a) = inl (a, refl)
Try-cases (failed e) = inr (e, refl)

pub done_inj : {E : Type 0} {A : Type 0} {a b : A} → ◌≡◌ {A = Try E A} (done a) (done b) → a ≡ b
done_inj e = ground arith
