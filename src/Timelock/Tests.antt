-- ===== src/Timelock/Tests.antt =====
-- A controller with one operation in its queue, and the theorems at it.
use current_dao_contracts.Base.{
  pos, ◌+ℤ◌, ◌≤ℤ◌, ltb_ℤ, ◌≡◌, ◌≢◌, inl, refl, String, not, some, [], ◌∷◌, arith, eq_iff, get, set,
  ok, throws, if◌then◌else◌, add_all,
}
use current_dao_contracts.Timelock.Defs.{
  Controller, Operation, executed, new, hash, queued, schedule, execute, is_operation_executed,
}
use current_dao_contracts.Timelock.Methods.{
  Method, schedules, executes, cancels, after, start, step, MayExecute, with_status, Moves,
  operation-Moves,
}
use current_dao_contracts.Timelock.Delay.{Entered, new_operation, executed_after_delay}
use current_dao_contracts.Timelock.Execution.{scheduled, schedule_then_execute, payloads_confused}

abbrev idle : Controller
idle = new (pos 100) ("pia" ∷ []) ("ed" ∷ []) "root"

abbrev transfer_call : Method
transfer_call = schedules "0xTreasury" (pos 0) "transfer(ann,1)" "" "s1" (pos 100)

abbrev busy : Controller
busy = after (pos 1000) "pia" transfer_call idle

abbrev op : Operation
op = queued (pos 1000) "0xTreasury" (pos 0) "transfer(ann,1)" "" "s1" (pos 100)

hashed :
    hash "0xTreasury" (pos 120) "transfer(ann,1)" "" "s1" ≡ "OP_HASH_0xTreasury_120_transfer(a__s1"
unfolding hash
hashed = refl

busy_at : get op.id busy.operations ≡ some op
unfolding after schedule new add_all set queued hash
busy_at = refl

done :
    get op.id
      (after
        (pos 1200)
        "ed"
        (executes "0xTreasury" (pos 0) "transfer(ann,1)" "" "s1")
        busy).operations
    ≡ some (with_status executed op)
unfolding after schedule execute new add_all set queued hash ◌+ℤ◌
done = refl

too_early :
    (execute (pos 1099) "0xTreasury" (pos 0) "transfer(ann,1)" "" "s1" "ed" busy).0
    ≡ throws "Timelock: operation delay not passed"
unfolding after schedule execute new add_all set queued hash ◌+ℤ◌
too_early = refl

operation-Moves_example :
    Moves
      (pos 1200)
      "root"
      busy
      op
      (get op.id (after (pos 1200) "root" (cancels op.id) busy).operations)
operation-Moves_example = operation-Moves (pos 1200) "root" op.id (cancels op.id) busy op busy_at

new_operation_example : Entered (pos 1000) "pia" idle op.id op
unfolding new
new_operation_example = new_operation (pos 1000) "pia" op.id transfer_call idle op refl busy_at

executed_after_delay_example : (op.timestamp +ℤ op.delay ≤ℤ pos 1200) × MayExecute "ed" busy
unfolding queued
executed_after_delay_example =
    executed_after_delay (pos 1200) "ed" op.id
      (executes "0xTreasury" (pos 0) "transfer(ann,1)" "" "s1") busy op (with_status executed op)
      (step (pos 1000) "pia" transfer_call (start (pos 100) ("pia" ∷ []) ("ed" ∷ []) "root"))
      busy_at refl done refl

schedule_then_execute_example :
    let (r, c') =
      schedule (pos 1000) "0xTreasury" (pos 0) "transfer(ann,1)" "" "s1" (pos 100) "pia" idle in
    let (r', c'') = execute (pos 1050) "0xTreasury" (pos 0) "transfer(ann,1)" "" "s1" "ed" c' in
    let key = hash "0xTreasury" (pos 0) "transfer(ann,1)" "" "s1" in
    (r ≡ ok key)
    × (r' ≡ (
        if ltb_ℤ (pos 1050) (pos 1000 +ℤ pos 100)
        then throws "Timelock: operation delay not passed"
        else ok tt))
    × (is_operation_executed key c'' ≡ not (ltb_ℤ (pos 1050) (pos 1000 +ℤ pos 100)))
unfolding new add_all
schedule_then_execute_example =
    schedule_then_execute (pos 1000) (pos 1050) "0xTreasury" (pos 0) "transfer(ann,1)" "" "s1"
      (pos 100) "pia" "ed" idle (inl refl) (inl refl) (inl refl) (omega arith) refl

bob_for_ann : ◌≢◌ {A = String} "transfer(ann,1)" "transfer(amy,9)"
bob_for_ann = ground (arith, eq_iff "transfer(ann,1)" "transfer(amy,9)")

payloads_confused_test :
    let c' = scheduled (pos 1000) "0xTreasury" (pos 0) "transfer(ann,1)" "" "s1" (pos 100) idle in
    let (r, c'') = execute (pos 1100) "0xTreasury" (pos 0) "transfer(amy,9)" "" "s1" "ed" c' in
    (schedule (pos 1000) "0xTreasury" (pos 0) "transfer(amy,9)" "" "s1" (pos 100) "pia" c'
      ≡ (throws "Timelock: operation already scheduled", c'))
    × (r ≡ ok tt)
    × (get op.id c''.operations ≡ some (with_status executed op))
    × (op.payload ≢ "transfer(amy,9)")
unfolding new add_all ◌+ℤ◌
payloads_confused_test =
    payloads_confused (pos 1000) (pos 1100) "0xTreasury" (pos 0) "transfer(ann,1)" "transfer(amy,9)"
      "" "s1" (pos 100) "pia" "ed" idle bob_for_ann refl (inl refl) (inl refl) (inl refl)
      (omega arith) (omega arith)
