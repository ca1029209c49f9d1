-- ===== src/Reentrancy/Tests.antt =====
-- Calls that nest and fail, and the theorems at them.
use current_dao_contracts.Base.{⊤, pos, ◌≡◌, refl, true, none, [], ◌∷◌, ok, throws, Call, pure}
use current_dao_contracts.Reentrancy.Defs.{
  Guard, cross_function, new, call_hash, before_colon, inspect_stack, handle_detection, enter_call,
  protect, reset_guard,
}
use current_dao_contracts.Reentrancy.Nesting.{
  Body, returns, fails, enters, catches, run, catches_nothing, SameStacks, locks_balanced,
  stacks_restored,
}
use current_dao_contracts.Reentrancy.Detection.{attack_of, detected_call_refused, refusal_sticks}

abbrev g0 : Guard
g0 = new none none none none

-- `bob` withdraws from `bank`, which pays `bob`, which fails; `ann` goes on.
abbrev failing : Body
failing =
    catches
      (enters (pos 1) "bob" "bank" "withdraw"
        (enters (pos 2) "bank" "bob" "pay" (fails "no") returns) returns)
      (enters (pos 3) "ann" "bank" "deposit" returns returns)

abbrev nested : Body
nested =
    enters (pos 1) "bob" "bank" "withdraw" (enters (pos 2) "bank" "bob" "pay" returns returns)
      returns

locks_balanced_example : (run failing g0).1.lock_count ≡ 0
unfolding new
locks_balanced_example = locks_balanced failing g0

nested_strict : catches_nothing nested ≡ true
unfolding catches_nothing
nested_strict = refl

nested_returns : (run nested g0).0 ≡ ok tt
unfolding run new protect enter_call inspect_stack before_colon call_hash
nested_returns = refl

stacks_restored_example : SameStacks (run nested g0).1 g0
stacks_restored_example = stacks_restored nested g0 nested_strict nested_returns

-- The guard while `bob` withdraws.
abbrev during : Guard
during = record g0 {
  detector = record (g0.detector) { call_stack = "bob:bank:withdraw" ∷ [] };
  lock_count = 1;
}

abbrev again : Call Guard ⊤
again = pure tt

detected_call_refused_test :
    ((protect (pos 2) again "bob" "shop" "buy" during).0 ≡ throws (attack_of cross_function))
    × ((protect (pos 2) again "bob" "shop" "buy" during).1.lock_count ≡ 1)
unfolding new inspect_stack before_colon call_hash
detected_call_refused_test =
    detected_call_refused (pos 2) again "bob" "shop" "buy" cross_function during refl refl refl refl

refusal_sticks_test :
    (protect
      (pos 9)
      again
      "bob"
      "bank"
      "withdraw"
      (reset_guard (protect (pos 2) again "bob" "bank" "withdraw" during).1)).0
    ≡ throws "REENTRANCY_ATTACK_PREVENTED: Detected type SAME_FUNCTION"
unfolding new enter_call handle_detection inspect_stack call_hash
refusal_sticks_test =
    refusal_sticks (pos 2) (pos 9) again again "bob" "bank" "withdraw"
      "REENTRANCY_ATTACK_PREVENTED: Detected type SAME_FUNCTION" during refl refl refl
