-- ===== src/Token/Tests.antt =====
-- A token with three holders, and the theorems at it.
use current_dao_contracts.Base.{
  pos, negsuc, ◌+ℤ◌, ◌-ℤ◌, ◌≤ℤ◌, ◌≡◌, refl, ◌≢◌, String, true, false, set, [], ◌∷◌, arith, eq_iff,
  ok, throws,
}
use current_dao_contracts.Token.Defs.{
  Token, balance_of, new, mint, burn, execute_transfer, transfer_from, transfer, approve,
}
use current_dao_contracts.Token.Total.{sum}
use current_dao_contracts.Token.Supply.{mints, pauses, after, start, step, Reach-conserves}
use current_dao_contracts.Token.Moves.{
  transfer_moves, negative_transfer_credits, negative_burn_mints,
}
use current_dao_contracts.Token.Access.{
  paused_blocks, MaySupply, supply_change_authorised, only_admin_governs,
}

abbrev shared : Token
shared = record {
  total_supply = pos 60;
  balances = ("ann", pos 50) ∷ ("bob", pos 0) ∷ ("cyd", pos 10) ∷ [];
  allowances = [];
  admin = "root";
  minters = "mia" ∷ [];
  burners = [];
  paused = false;
  events = [];
}

abbrev halted : Token
halted = record shared { paused = true }

ann_pays :
    (execute_transfer (pos 5) "ann" "bob" (pos 20) shared).1.balances
    ≡ ("ann", pos 30) ∷ ("bob", pos 20) ∷ ("cyd", pos 10) ∷ []
unfolding execute_transfer ◌+ℤ◌ ◌-ℤ◌ set
ann_pays = refl

bob_cannot_pay :
    (execute_transfer (pos 5) "bob" "ann" (pos 1) shared).0
    ≡ throws "SafeMath: subtraction overflow"
unfolding execute_transfer ◌+ℤ◌ ◌-ℤ◌ set
bob_cannot_pay = refl

Reach-conserves_example :
    let t = after (pos 2) "root" (mints "ann" (pos 9)) (new (pos 1) "root") in
    (sum t.balances ≡ t.total_supply)
    × (pos 0 ≤ℤ balance_of "ann" t)
    × (balance_of "ann" t ≤ℤ t.total_supply)
Reach-conserves_example =
    Reach-conserves "ann" (step (pos 2) "root" (mints "ann" (pos 9)) (start (pos 1) "root") tt)

ann_ne_bob : ◌≢◌ {A = String} "ann" "bob"
ann_ne_bob = ground (arith, eq_iff "ann" "bob")

cyd_ne_ann : ◌≢◌ {A = String} "cyd" "ann"
cyd_ne_ann = ground (arith, eq_iff "cyd" "ann")

cyd_ne_bob : ◌≢◌ {A = String} "cyd" "bob"
cyd_ne_bob = ground (arith, eq_iff "cyd" "bob")

ann_set : ◌≢◌ {A = String} "ann" ""
ann_set = ground (arith, eq_iff "ann" "")

bob_set : ◌≢◌ {A = String} "bob" ""
bob_set = ground (arith, eq_iff "bob" "")

ann_ne_root : ◌≢◌ {A = String} "ann" "root"
ann_ne_root = ground (arith, eq_iff "ann" "root")

transfer_moves_example :
    let (r, t') = execute_transfer (pos 5) "ann" "bob" (pos 20) shared in
    (r ≡ ok true)
    × (balance_of "ann" t' ≡ balance_of "ann" shared -ℤ pos 20)
    × (balance_of "bob" t' ≡ balance_of "bob" shared +ℤ pos 20)
    × (balance_of "cyd" t' ≡ balance_of "cyd" shared)
    × (t'.total_supply ≡ shared.total_supply)
unfolding balance_of
transfer_moves_example =
    transfer_moves (pos 5) "ann" "bob" "cyd" (pos 20) shared refl ann_set bob_set ann_ne_bob
      cyd_ne_ann cyd_ne_bob (omega arith) (omega arith)

negative_transfer_credits_test :
    let (r, t') = execute_transfer (pos 5) "ann" "bob" (negsuc 6) shared in
    (r ≡ throws "SafeMath: addition overflow")
    × (balance_of "ann" t' ≡ balance_of "ann" shared +ℤ pos 7)
    × (t'.total_supply ≡ shared.total_supply)
unfolding balance_of
negative_transfer_credits_test =
    negative_transfer_credits (pos 5) "ann" "bob" 6 shared refl ann_set bob_set (omega arith)

negative_burn_mints_test :
    let (r, t') = burn (pos 5) "ann" "ann" (negsuc 6) shared in
    (r ≡ ok true)
    × (balance_of "ann" t' ≡ balance_of "ann" shared +ℤ pos 7)
    × (t'.total_supply ≡ shared.total_supply +ℤ pos 7)
unfolding balance_of
negative_burn_mints_test =
    negative_burn_mints (pos 5) "ann" 6 shared refl (omega arith) (omega arith)

paused_blocks_test :
    (mint (pos 5) "mia" "bob" (pos 1) halted ≡ (throws "Pausable: paused", halted))
    × (burn (pos 5) "mia" "ann" (pos 1) halted ≡ (throws "Pausable: paused", halted))
    × (execute_transfer (pos 5) "ann" "bob" (pos 1) halted ≡ (throws "Pausable: paused", halted))
    × (transfer_from (pos 5) "ann" "bob" (pos 1) halted ≡ (throws "Pausable: paused", halted))
    × (transfer (pos 5) "bob" (pos 1) halted ≡ (throws "Pausable: paused", halted))
    × (approve (pos 5) "bob" (pos 1) "mia" halted ≡ (throws "Pausable: paused", halted))
paused_blocks_test = paused_blocks (pos 5) "mia" "ann" "bob" (pos 1) halted refl

minted : (after (pos 5) "mia" (mints "bob" (pos 1)) shared).total_supply ≢ shared.total_supply
unfolding after mint ◌+ℤ◌ set
minted e = cc e

supply_change_authorised_example :
    (shared.paused ≡ false) × MaySupply "mia" (mints "bob" (pos 1)) shared
supply_change_authorised_example =
    supply_change_authorised (pos 5) "mia" (mints "bob" (pos 1)) shared minted

only_admin_governs_test :
    let t' = after (pos 5) "ann" pauses shared in
    (t'.minters ≡ shared.minters)
    × (t'.burners ≡ shared.burners)
    × (t'.paused ≡ shared.paused)
    × (t'.admin ≡ shared.admin)
only_admin_governs_test = only_admin_governs (pos 5) "ann" pauses shared ann_ne_root
