-- ===== src/Timelock/Delay.antt =====
-- The delay: what enters the queue, and when it may leave it.
use current_dao_contracts.Base.{
  ℤ, ◌+ℤ◌, ◌≤ℤ◌, ◌≡◌, ◌≢◌, sym, ap, ◌∙◌, String, Option, none, some, arith, eq_iff, get, get-set,
  Option-cases, inl, inr,
}
use current_dao_contracts.Timelock.Defs.{
  Controller, Operation, pending, ready, executed, new, hash, queued, schedule, update_delay,
  grant_role, proposer, executor, canceller,
}
use current_dao_contracts.Timelock.Methods.{
  Method, schedules, executes, cancels, updates_delay, grants, after, Reach, start, step,
  MayPropose, MayExecute, Moves, operation-Moves, execute_free, cancel_free,
}

-- An operation as `schedule` stores it under `id` at `now`.
abbrev pub Entered : ℤ → String → Controller → String → Operation → Type 0
Entered now caller c id op =
    (op.id ≡ id)
    × (op.timestamp ≡ now)
    × (op.eta ≡ now +ℤ op.delay)
    × (c.min_delay ≤ℤ op.delay)
    × (op.status ≡ pending)
    × MayPropose caller c

-- An id that was free and after a call is not was scheduled by that call: its operation is pending,
-- carries its own id, has a delay of at least the minimum at that time and is due after the delay
-- from now; the caller is a proposer or the administrator.
pub new_operation :
    (now : ℤ) (caller id : String) (m : Method) (c : Controller) (op : Operation)
    → get id c.operations ≡ none
    → get id (after now caller m c).operations ≡ some op
    → Entered now caller c id op
unfolding after schedule update_delay grant_role
new_operation now caller id (schedules target value payload predecessor salt delay) c op e found =
    let key = hash target value payload predecessor salt in
    ground (
      arith,
      eq_iff key id,
      eq_iff caller c.admin,
      get-set key id (queued now target value payload predecessor salt delay) c.operations,
    )
new_operation now caller id (executes target value payload predecessor salt) c op e found =
    cc (execute_free now caller id target value payload predecessor salt c e)
new_operation now caller id (cancels key) c op e found = cc (cancel_free caller id key c e)
new_operation now caller id (updates_delay delay) c op e found = ground arith
new_operation now caller id (grants proposer account) c op e found = ground arith
new_operation now caller id (grants executor account) c op e found = ground arith
new_operation now caller id (grants canceller account) c op e found = ground arith

-- What holds of every stored operation.
abbrev pub IsSound : Controller → Type 0
IsSound c =
    (id : String) (op : Operation)
    → get id c.operations ≡ some op
    → (op.id ≡ id) × (op.eta ≡ op.timestamp +ℤ op.delay) × (op.status ≢ ready)

moved-IsSound :
    (now : ℤ) (caller id : String) (c : Controller) (op op' : Operation) (found : Option Operation)
    → (op.id ≡ id) × (op.eta ≡ op.timestamp +ℤ op.delay) × (op.status ≢ ready)
    → Moves now caller c op found
    → found ≡ some op'
    → (op'.id ≡ id) × (op'.eta ≡ op'.timestamp +ℤ op'.delay) × (op'.status ≢ ready)
moved-IsSound now caller id c op op' found h (inl same) e = ground arith
moved-IsSound now caller id c op op' found h (inr (inl (p, q, may, wrote))) e = ground arith
moved-IsSound now caller id c op op' found h (inr (inr (p, may, wrote))) e = ground arith

after-IsSound :
    (now : ℤ) (caller : String) (m : Method) (c : Controller)
    → IsSound c
    → IsSound (after now caller m c)
after-IsSound now caller m c h id op e = elim (Option-cases (get id c.operations)) [
  | inl free ↦
      let (own, stamp, due, minimum, status, may) = new_operation now caller id m c op free e in
      (own, due ∙ ap (λ t. t +ℤ op.delay) (sym stamp), λ r. cc (r, status))
  | inr (old, at) ↦
      moved-IsSound now caller id c old op (get id (after now caller m c).operations) (h id old at)
        (operation-Moves now caller id m c old at) e
]

Reach-IsSound : {c : Controller} → Reach c → IsSound c
unfolding new
Reach-IsSound (start min_delay proposers executors admin) id op e = cc e
Reach-IsSound (step {c} now caller m r) id op e =
    after-IsSound now caller m c (Reach-IsSound r) id op e

-- In every controller that calls lead to: an operation that a call turns from pending to executed
-- was scheduled at least its delay ago, and the caller is an executor or the administrator.
pub executed_after_delay :
    (now : ℤ) (caller id : String) (m : Method) (c : Controller) (op op' : Operation)
    → Reach c
    → get id c.operations ≡ some op
    → op.status ≡ pending
    → get id (after now caller m c).operations ≡ some op'
    → op'.status ≡ executed
    → (op.timestamp +ℤ op.delay ≤ℤ now) × MayExecute caller c
executed_after_delay now caller id m c op op' r at p e x =
    elim (operation-Moves now caller id m c op at) [
      | inl same ↦ cc (same, e, p, x)
      | inr (inl (_, due, may, _)) ↦ (rw (← (Reach-IsSound r id op at).1) due, may)
      | inr (inr (_, _, wrote)) ↦ cc (wrote, e, x)
    ]
