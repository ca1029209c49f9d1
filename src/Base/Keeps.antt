-- ===== src/Base/Keeps.antt =====
-- What holds of the state after a call whatever the call returns, by the steps of its `do` block.
use Prim.Native.String.{String}
use mathlib.Core.Bool.{Bool}
use mathlib.Core.Option.{Option, none, some}
use current_dao_contracts.Base.Calls.{
  Outcome, ok, throws, Call, pure, gets, or_throw, throw_if, modify, lift, ◌>>=◌,
}

-- If `P` holds of the state, it holds of the state that the call leaves, also when it throws.
pub record Keeps {S A : Type 0} (P : S → Type 0) (m : Call S A) : Type 0 where
  pub on : (s : S) → P s → P (m s).1

module _ {S : Type 0} {P : S → Type 0} where
  step_on :
      {A B : Type 0} (r : Outcome A) (t : S) (f : A → Call S B)
      → P t
      → ((a : A) → Keeps P (f a))
      → P ((elim r as (λ _. Outcome B × S) [ ok a ↦ f a t | throws e ↦ (throws e, t) ]).1)
  step_on (ok a) t f h kf = (kf a).on t h
  step_on (throws e) t f h kf = h

  pub Keeps-bind :
      {A B : Type 0} (m : Call S A) (f : A → Call S B)
      → Keeps P m
      → ((a : A) → Keeps P (f a))
      → Keeps P (m >>= f)
  Keeps-bind m f km kf = record { on = λ s h. step_on (m s).0 (m s).1 f (km.on s h) kf }

  pub Keeps-pure : {A : Type 0} (a : A) → Keeps P (pure a)
  Keeps-pure a = record { on = λ s h. h }

  pub Keeps-gets : {A : Type 0} (f : S → A) → Keeps P (gets f)
  Keeps-gets f = record { on = λ s h. h }

  pub Keeps-lift : {A : Type 0} (r : Outcome A) → Keeps P (lift r)
  Keeps-lift r = record { on = λ s h. h }

  pub Keeps-throw_if : (b : Bool) (e : String) → Keeps P (throw_if b e)
  Keeps-throw_if b e = record { on = λ s h. h }

  pub Keeps-or_throw : {A : Type 0} (o : Option A) (e : String) → Keeps P (or_throw o e)
  Keeps-or_throw none e = record { on = λ s h. h }
  Keeps-or_throw (some a) e = record { on = λ s h. h }

  pub Keeps-modify : (f : S → S) → ((s : S) → P s → P (f s)) → Keeps P (modify f)
  Keeps-modify f h = record { on = h }

pub ruleset keeps_rules =
    (Keeps-bind, Keeps-pure, Keeps-gets, Keeps-lift, Keeps-throw_if, Keeps-or_throw, Keeps-modify)
