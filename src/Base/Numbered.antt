-- ===== src/Base/Numbered.antt =====
-- `Map<number, V>` whose keys are the ids that a contract counts up: its entries in the order of
-- insertion.
use Prim.Native.Nat.{ℕ}
use mathlib.Core.Path.{◌≡◌, refl}
use mathlib.Core.Option.{Option, none, some}
use mathlib.Core.List.{List, [], ◌∷◌, map}
use native.Mathlib.Omega.{arith}
use current_dao_contracts.Base.Tests.{eqb, if◌then◌else◌}

abbrev pub Table : Type 0 → Type 0
Table V = List (ℕ × V)

module _ {V : Type 0} where
  -- `m.get(k)`
  abbrev pub find : ℕ → Table V → Option V
  find k [] = none
  find k ((j, v) ∷ m) = if eqb j k then some v else find k m

  -- `m.set(k, v)`
  unfoldable pub put : ℕ → V → Table V → Table V
  put k v [] = (k, v) ∷ []
  put k v ((j, w) ∷ m) = if eqb j k then (j, v) ∷ m else (j, w) ∷ put k v m

  -- `Array.from(m.values())`
  abbrev pub values : Table V → List V
  values m = map (λ e. e.1) m

  pub find-put :
      (k j : ℕ) (v : V) (m : Table V) → find j (put k v m) ≡ (if eqb k j then some v else find j m)
  unfolding put
  find-put k j v [] = refl
  find-put k j v ((i, w) ∷ m) = ground (arith, find-put k j v m)
