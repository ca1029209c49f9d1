-- ===== src/MultiSig/Tests.antt =====
-- A multisig of three owners with one transaction, and the theorems at it.
use current_dao_contracts.Base.{
  length, pos, ◌+ℤ◌, ◌≤ℤ◌, ◌<ℤ◌, ◌≡◌, refl, String, true, some, [], ◌∷◌, arith, get, set, has_key,
  IsKeyed, has, ok, add_all, remove,
}
use current_dao_contracts.MultiSig.Defs.{
  MultiSig, Transaction, new, hash, submitted, submit_transaction, confirm_transaction,
  execute_transaction, remove_owner, confirmations_of,
}
use current_dao_contracts.MultiSig.Counts.{
  submits, confirms, executes, removes_owner, after, Reach, start, step, confirmations_counted,
}
use current_dao_contracts.MultiSig.Quorum.{
  IsLive, after-IsLive, executed_with_quorum, executed_stays, removed_owner_counts,
  repeated_owner_locks,
}

abbrev empty : MultiSig
empty = record {
  transactions = [];
  confirmations = [];
  owners = "ann" ∷ "bob" ∷ "cyd" ∷ [];
  num_confirmations_required = pos 1;
  transaction_count = pos 0;
}

new_ok : new ("ann" ∷ "bob" ∷ "cyd" ∷ []) (pos 1) ≡ ok empty
unfolding new add_all
new_ok = refl

abbrev id : String
id = "MS_TX_0xDest_7_0_1000"

abbrev submitted_once : MultiSig
submitted_once = after (pos 1000) "ann" (submits "0xDestination" (pos 7) "0x") empty

abbrev confirmed_once : MultiSig
confirmed_once = after (pos 1001) "cyd" (confirms id) submitted_once

abbrev tx : Transaction
tx = record (submitted (pos 1000) id "0xDestination" (pos 7) "0x") { num_confirmations = pos 1 }

tx_at : get id confirmed_once.transactions ≡ some tx
unfolding after submit_transaction confirm_transaction hash submitted set ◌+ℤ◌
tx_at = refl

reached : Reach confirmed_once
reached = step (pos 1001) "cyd" (confirms id) (
    step (pos 1000) "ann" (submits "0xDestination" (pos 7) "0x")
      (start ("ann" ∷ "bob" ∷ "cyd" ∷ []) (pos 1) new_ok))

confirmations_counted_example :
    IsKeyed (confirmations_of id confirmed_once)
    × (tx.num_confirmations ≡ pos (length (confirmations_of id confirmed_once)))
confirmations_counted_example = confirmations_counted id tx reached tx_at

after-IsLive_example : IsLive (after (pos 1002) "0xSelf" (removes_owner "bob") empty)
after-IsLive_example = after-IsLive (pos 1002) "0xSelf" (removes_owner "bob") empty (omega arith)

abbrev executed_tx : Transaction
executed_tx = record tx { executed = true }

executed_at :
    get id (execute_transaction (pos 1003) id "ann" confirmed_once).1.transactions
    ≡ some executed_tx
unfolding after submit_transaction confirm_transaction execute_transaction hash submitted set ◌+ℤ◌
executed_at = refl

executed_with_quorum_example :
    (has "ann" confirmed_once.owners ≡ true)
    × (pos 1003 ≤ℤ tx.deadline)
    × IsKeyed (confirmations_of id confirmed_once)
    × (confirmed_once.num_confirmations_required
        ≤ℤ pos (length (confirmations_of id confirmed_once)))
unfolding submitted
executed_with_quorum_example =
    executed_with_quorum (pos 1003) "ann" id confirmed_once tx executed_tx reached tx_at refl
      executed_at refl

executed_stays_example :
    let s = (execute_transaction (pos 1003) id "ann" confirmed_once).1 in
    get id (after (pos 1004) "bob" (executes id) s).transactions ≡ some executed_tx
executed_stays_example =
    executed_stays (pos 1004) "bob" id (executes id)
      (execute_transaction (pos 1003) id "ann" confirmed_once).1 executed_tx executed_at refl tt

removed_owner_counts_test :
    let (r, s') = remove_owner "cyd" "0xSelf" confirmed_once in
    (r ≡ ok tt)
    × (s'.owners ≡ remove "cyd" confirmed_once.owners)
    × (has_key "cyd" (confirmations_of id s') ≡ true)
    × ((execute_transaction (pos 1005) id "ann" s').0 ≡ ok tt)
unfolding after submit_transaction confirm_transaction hash submitted set ◌+ℤ◌ remove
removed_owner_counts_test =
    removed_owner_counts (pos 1005) "cyd" "ann" id confirmed_once tx tx_at refl (omega arith) refl
      refl refl (omega arith) refl

repeated_owner_locks_test :
    (s : MultiSig) × (new ("ann" ∷ "ann" ∷ []) (pos 2) ≡ ok s)
    × (s.owners ≡ "ann" ∷ [])
    × (pos (length s.owners) <ℤ s.num_confirmations_required)
repeated_owner_locks_test = repeated_owner_locks "ann"
