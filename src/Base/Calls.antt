-- ===== src/Base/Calls.antt =====
-- A method call on an object of state `S`: it returns or throws, and what it had written before a
-- throw stays written. `Date.now()` is an argument of the methods that read it: the clock is taken
-- to stand still within one call.
use Prim.Native.String.{String}
use mathlib.Core.Path.{◌≡◌, refl}
use mathlib.Core.Logic.{◌⊎◌, inl, inr}
use mathlib.Core.Bool.{Bool}
use mathlib.Core.Option.{Option, none, some}
use current_dao_contracts.Base.Tests.{⊤, if◌then◌else◌}

pub data Outcome (A : Type 0) : Type 0 where
  ok : A → Outcome A
  throws : String → Outcome A

pub Outcome-cases :
    {A : Type 0} (r : Outcome A) → ((a : A) × (r ≡ ok a)) ⊎ ((e : String) × (r ≡ throws e))
Outcome-cases (ok a) = inl (a, refl)
Outcome-cases (throws e) = inr (e, refl)

abbrev pub Call : Type 0 → Type 0 → Type 0
Call S A = S → Outcome A × S

module _ {S A : Type 0} where
  abbrev pub pure : A → Call S A
  pure a s = (ok a, s)

  abbrev pub throw : String → Call S A
  throw e s = (throws e, s)

  abbrev pub gets : (S → A) → Call S A
  gets f s = (ok (f s), s)

  -- `if (!o) throw new Error(e)`, for a value that may be undefined.
  abbrev pub or_throw : Option A → String → Call S A
  or_throw none e s = (throws e, s)
  or_throw (some a) e s = (ok a, s)

module _ {S : Type 0} where
  infixl 5 ◌>>=◌ ◌>>◌
  abbrev pub ◌>>=◌ : {A B : Type 0} → Call S A → (A → Call S B) → Call S B
  ◌>>=◌ m f s = let (r, t) = m s in elim r [ ok a ↦ f a t | throws e ↦ (throws e, t) ]

  abbrev pub ◌>>◌ : {A B : Type 0} → Call S A → Call S B → Call S B
  m >> k = m >>= λ _. k

  -- `if (b) throw new Error(e)`
  abbrev pub throw_if : Bool → String → Call S ⊤
  throw_if b e s = (if b then throws e else ok tt, s)

  abbrev pub modify : (S → S) → Call S ⊤
  modify f s = (ok tt, f s)

-- A call on an object that is held in a field of another.
abbrev pub zoom : {S T A : Type 0} → (S → T) → (T → S → S) → Call T A → Call S A
zoom get put m s = let (r, t) = m (get s) in (r, put t s)

-- A function that may throw and writes nothing.
abbrev pub lift : {S A : Type 0} → Outcome A → Call S A
lift r s = (r, s)

-- `try { m } catch { handler }`: what `m` had written before it threw stays written.
abbrev pub catching : {S A : Type 0} → Call S A → Call S A → Call S A
catching m handler s = let (r, t) = m s in elim r [ ok a ↦ (ok a, t) | throws _ ↦ handler t ]
