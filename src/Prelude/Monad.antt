-- ===== src/Prelude/Monad.antt =====
-- A handler: a call that reads and writes a state and may throw. What was written before a throw
-- stays written, as in the program, where a handler is no transaction.
use mathlib.Core.Path.{◌≡◌, refl}
use mathlib.Core.Logic.{◌⊎◌, inl, inr}
use mathlib.Core.Bool.{Bool}
use mathlib.Core.Option.{Option, none, some}
use collabai_backend.Prelude.Tests.{if◌then◌else◌}

pub data Result (E A : Type 0) : Type 0 where
  ok : A → Result E A
  err : E → Result E A

pub Result-cases :
    {E A : Type 0} (r : Result E A) → ((a : A) × (r ≡ ok a)) ⊎ ((e : E) × (r ≡ err e))
Result-cases (ok a) = inl (a, refl)
Result-cases (err e) = inr (e, refl)

abbrev pub Action : Type 0 → Type 0 → Type 0 → Type 0
Action S E A = S → Result E A × S

module _ {S E A : Type 0} where
  abbrev pub pure : A → Action S E A
  pure a s = (ok a, s)

  abbrev pub throw : E → Action S E A
  throw e s = (err e, s)

  -- A read of the state.
  abbrev pub gets : (S → A) → Action S E A
  gets f s = (ok (f s), s)

  -- `if (!x) throw e`
  abbrev pub or_throw : Option A → E → Action S E A
  or_throw none e = throw e
  or_throw (some a) e = pure a

module _ {S E : Type 0} where
  abbrev pub throw_if : Bool → E → Action S E (Unit {0})
  throw_if b e s = (if b then err e else ok tt, s)

  abbrev pub modify : (S → S) → Action S E (Unit {0})
  modify f s = (ok tt, f s)

  -- A write that the store may refuse, with the error that it then throws.
  abbrev pub write : E → (S → Option S) → Action S E (Unit {0})
  write e f s = elim (f s) [ none ↦ (err e, s) | some s' ↦ (ok tt, s') ]

infixl 5 ◌>>=◌ ◌>>◌
abbrev pub ◌>>=◌ : {S E A B : Type 0} → Action S E A → (A → Action S E B) → Action S E B
◌>>=◌ m f s = let (r, s') = m s in elim r [ ok a ↦ f a s' | err e ↦ (err e, s') ]

abbrev pub ◌>>◌ : {S E A B : Type 0} → Action S E A → Action S E B → Action S E B
m >> k = m >>= λ _. k
