-- ===== src/Token/Total.antt =====
-- The sum of the balances of a table, and how a write changes it.
use current_dao_contracts.Base.{
  ℤ, pos, ◌+ℤ◌, ◌≤ℤ◌, int_laws, ◌≡◌, ⊤, String, [], ◌∷◌, eq_iff, arith, Dict, get, set, get_or,
}

unfoldable pub sum : Dict ℤ → ℤ
sum [] = pos 0
sum ((k, v) ∷ m) = v +ℤ sum m

pub sum-set :
    (k : String) (v : ℤ) (m : Dict ℤ) → sum (set k v m) +ℤ get_or (get k m) (pos 0) ≡ sum m +ℤ v
unfolding sum set
sum-set k v [] = omega int_laws
sum-set k v ((j, w) ∷ m) = grind (int_laws, eq_iff j k, sum-set k v m)

-- No balance is negative.
abbrev pub IsNonneg : Dict ℤ → Type 0
IsNonneg [] = ⊤
IsNonneg ((k, v) ∷ m) = (pos 0 ≤ℤ v) × IsNonneg m

pub set-IsNonneg :
    (k : String) (v : ℤ) (m : Dict ℤ) → IsNonneg m → pos 0 ≤ℤ v → IsNonneg (set k v m)
unfolding set
set-IsNonneg k v [] h p = (p, tt)
set-IsNonneg k v ((j, w) ∷ m) h p = ground (arith, set-IsNonneg k v m h.1 p)

pub get_nonneg : (k : String) (m : Dict ℤ) → IsNonneg m → pos 0 ≤ℤ get_or (get k m) (pos 0)
get_nonneg k [] h = omega arith
get_nonneg k ((j, w) ∷ m) h = ground (arith, get_nonneg k m h.1)

pub get-le-sum : (k : String) (m : Dict ℤ) → IsNonneg m → get_or (get k m) (pos 0) ≤ℤ sum m
unfolding sum
get-le-sum k [] h = omega arith
get-le-sum k ((j, w) ∷ m) h = grind (int_laws, get-le-sum k m h.1, get_nonneg k m h.1)
