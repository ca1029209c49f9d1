-- ===== src/Escrow/Limiter.antt =====
-- `EscrowLib.createRateLimiter`: the times of the operations of each actor.
use current_dao_contracts.Base.{
  ℕ, length, leb, ℤ, ◌-ℤ◌, ltb_ℤ, String, Bool, true, false, List, [], ◌∷◌, ◌++◌, filter, Dict, get,
  set, get_or, if◌then◌else◌,
}

-- The times less than a window ago.
abbrev pub recent : ℤ → ℤ → List ℤ → List ℤ
recent window now times = filter (λ t. ltb_ℤ (now -ℤ t) window) times

unfoldable pub cleanup : ℤ → ℤ → Dict (List ℤ) → Dict (List ℤ)
cleanup window now [] = []
cleanup window now ((actor, times) ∷ operations) =
    let rest = cleanup window now operations in
    elim (recent window now times) [ [] ↦ rest | t ∷ ts ↦ (actor, t ∷ ts) ∷ rest ]

-- Whether the operation is allowed, and the table after it.
unfoldable pub check_operation : ℕ → ℤ → ℤ → String → Dict (List ℤ) → Bool × Dict (List ℤ)
unfolding cleanup
check_operation max_operations window now actor operations =
    let cleaned = cleanup window now operations in
    let times = recent window now (get_or (get actor cleaned) []) in
    if leb max_operations (length times)
    then (false, cleaned)
    else (true, set actor (times ++ (now ∷ [])) cleaned)
