-- ===== src/Timelock/Execution.antt =====
-- A scheduled operation can be executed after its delay; and the ids of operations: `hash` reads ten
-- characters of each text, so an operation does not belong to one id alone.
use current_dao_contracts.Base.{
  ℤ, ◌+ℤ◌, ◌≤ℤ◌, ◌<ℤ◌, ltb_ℤ, ◌≡◌, ◌≢◌, ◌⊎◌, refl, sym, String, slice_to, false, not, none, some,
  arith, eq_iff, get, set, get-set_self, ok, throws, Bool-cases, inl, inr, if◌then◌else◌,
}
use current_dao_contracts.Timelock.Defs.{
  Controller, Operation, pending, executed, hash, queued, schedule, execute, is_blocked,
  is_operation_executed,
}
use current_dao_contracts.Timelock.Methods.{MayPropose, MayExecute, with_status}

abbrev pub scheduled : ℤ → String → ℤ → String → String → String → ℤ → Controller → Controller
scheduled now target value payload predecessor salt delay c = record c {
  operations =
      set (hash target value payload predecessor salt)
        (queued now target value payload predecessor salt delay) c.operations;
}

module _ (now : ℤ) (target : String) (value : ℤ) (payload predecessor salt : String) (delay : ℤ)
    (c : Controller) where
  abbrev key : String
  key = hash target value payload predecessor salt

  schedule_free :
      (caller : String)
      → MayPropose caller c
      → c.min_delay ≤ℤ delay
      → get key c.operations ≡ none
      → schedule now target value payload predecessor salt delay caller c
        ≡ (ok key, scheduled now target value payload predecessor salt delay c)
  unfolding schedule
  schedule_free caller may long free = ground (arith, eq_iff caller c.admin)

  schedule_taken :
      (caller : String) (op : Operation)
      → MayPropose caller c
      → c.min_delay ≤ℤ delay
      → get key c.operations ≡ some op
      → schedule now target value payload predecessor salt delay caller c
        ≡ (throws "Timelock: operation already scheduled", c)
  unfolding schedule
  schedule_taken caller op may long taken = ground (arith, eq_iff caller c.admin)

module _ (now : ℤ) (target : String) (value : ℤ) (payload predecessor salt : String)
    (c : Controller) (op : Operation) (caller : String) (key : String)
    (named : hash target value payload predecessor salt ≡ key) (at : get key c.operations ≡ some op)
    (open_still : op.status ≡ pending) (free : is_blocked predecessor c ≡ false)
    (may : MayExecute caller c) where
  execute_due :
      op.eta ≤ℤ now
      → execute now target value payload predecessor salt caller c
        ≡ (ok tt, record c { operations = set key (with_status executed op) c.operations })
  unfolding execute
  execute_due due = ground (arith, named, eq_iff caller c.admin)

  execute_early :
      now <ℤ op.eta
      → execute now target value payload predecessor salt caller c
        ≡ (throws "Timelock: operation delay not passed", c)
  unfolding execute
  execute_early early = ground (arith, named, eq_iff caller c.admin)

unblocked :
    (predecessor : String) (c : Controller)
    → (predecessor ≡ "") ⊎ (predecessor ≡ "0x0")
    → is_blocked predecessor c ≡ false
unfolding is_blocked
unblocked predecessor c h = ground (arith, eq_iff predecessor "", eq_iff predecessor "0x0")

-- Two payloads whose first ten characters agree have one id.
hash_collides :
    (target : String) (value : ℤ) (payload payload' predecessor salt : String)
    → slice_to 10 payload ≡ slice_to 10 payload'
    → hash target value payload predecessor salt ≡ hash target value payload' predecessor salt
unfolding hash
hash_collides target value payload payload' predecessor salt e = cc e

-- What is left of the controller after a scheduled operation is executed at a time `now'`.
pub execute-scheduled :
    (now now' : ℤ) (target : String) (value : ℤ) (payload payload' predecessor salt : String)
    (delay : ℤ) (caller : String) (c : Controller)
    → (predecessor ≡ "") ⊎ (predecessor ≡ "0x0")
    → MayExecute caller c
    → slice_to 10 payload ≡ slice_to 10 payload'
    → let c' = scheduled now target value payload predecessor salt delay c in
      let key = hash target value payload predecessor salt in
      let op = queued now target value payload predecessor salt delay in
      execute now' target value payload' predecessor salt caller c' ≡ (
        if ltb_ℤ now' (now +ℤ delay)
        then (throws "Timelock: operation delay not passed", c')
        else (ok tt, record c' { operations = set key (with_status executed op) c'.operations }))
unfolding queued
execute-scheduled now now' target value payload payload' predecessor salt delay caller c none_before
      may alike =
    let c' = scheduled now target value payload predecessor salt delay c in
    let key = hash target value payload predecessor salt in
    let op = queued now target value payload predecessor salt delay in
    let at : get key c'.operations ≡ some op = get-set_self key op c.operations in
    let free = unblocked predecessor c' none_before in
    let one = hash_collides target value payload payload' predecessor salt alike in
    elim (Bool-cases (ltb_ℤ now' (now +ℤ delay))) [
      | inl early ↦ rw early (
          execute_early now' target value payload' predecessor salt c' op caller key (sym one) at
            refl free may (ground arith))
      | inr due ↦ rw due (
          execute_due now' target value payload' predecessor salt c' op caller key (sym one) at refl
            free may (ground arith))
    ]

-- A proposer may schedule, under an id that is free and with a delay of at least the minimum, an
-- operation with no predecessor. From then on an executor's call to execute it throws while the
-- delay lasts, and succeeds from its end on; the operation counts as executed exactly after a call
-- that succeeded.
pub schedule_then_execute :
    (now now' : ℤ) (target : String) (value : ℤ) (payload predecessor salt : String) (delay : ℤ)
    (caller runner : String) (c : Controller)
    → (predecessor ≡ "") ⊎ (predecessor ≡ "0x0")
    → MayPropose caller c
    → MayExecute runner c
    → c.min_delay ≤ℤ delay
    → get (hash target value payload predecessor salt) c.operations ≡ none
    → let (r, c') = schedule now target value payload predecessor salt delay caller c in
      let (r', c'') = execute now' target value payload predecessor salt runner c' in
      let key = hash target value payload predecessor salt in
      (r ≡ ok key)
      × (r' ≡ (
          if ltb_ℤ now' (now +ℤ delay)
          then throws "Timelock: operation delay not passed"
          else ok tt))
      × (is_operation_executed key c'' ≡ not (ltb_ℤ now' (now +ℤ delay)))
unfolding is_operation_executed queued
schedule_then_execute now now' target value payload predecessor salt delay caller runner c
      none_before may may' long free =
    let key = hash target value payload predecessor salt in
    let op = queued now target value payload predecessor salt delay in
    let c' = scheduled now target value payload predecessor salt delay c in
    rw (schedule_free now target value payload predecessor salt delay c caller may long free) (
      rw
        (execute-scheduled now now' target value payload payload predecessor salt delay runner c
          none_before may' refl)
        (ground (
          arith,
          get-set_self key op c.operations,
          get-set_self key (with_status executed op) c'.operations,
        )))

-- Two different payloads with the same first ten characters are one operation to the controller:
-- once the first is scheduled, scheduling the second throws, and after the delay an executor who
-- gives the second payload executes the operation that holds the first.
pub payloads_confused :
    (now now' : ℤ) (target : String) (value : ℤ) (payload payload' predecessor salt : String)
    (delay : ℤ) (caller runner : String) (c : Controller)
    → payload ≢ payload'
    → slice_to 10 payload ≡ slice_to 10 payload'
    → (predecessor ≡ "") ⊎ (predecessor ≡ "0x0")
    → MayPropose caller c
    → MayExecute runner c
    → c.min_delay ≤ℤ delay
    → now +ℤ delay ≤ℤ now'
    → let op = queued now target value payload predecessor salt delay in
      let c' = scheduled now target value payload predecessor salt delay c in
      let (r, c'') = execute now' target value payload' predecessor salt runner c' in
      (schedule now target value payload' predecessor salt delay caller c'
        ≡ (throws "Timelock: operation already scheduled", c'))
      × (r ≡ ok tt)
      × (get op.id c''.operations ≡ some (with_status executed op))
      × (op.payload ≢ payload')
unfolding queued
payloads_confused now now' target value payload payload' predecessor salt delay caller runner c
      differ alike none_before may may' long due =
    let key = hash target value payload predecessor salt in
    let op = queued now target value payload predecessor salt delay in
    let c' = scheduled now target value payload predecessor salt delay c in
    let one = hash_collides target value payload payload' predecessor salt alike in
    let late : ltb_ℤ now' (now +ℤ delay) ≡ false = ground arith in
    let ran =
      execute-scheduled now now' target value payload payload' predecessor salt delay runner c
        none_before may' alike in
    (
      schedule_taken now target value payload' predecessor salt delay c' caller op may long
          (rw (← one) (get-set_self key op c.operations)),
      rw (ran, late) refl,
      rw (ran, late) (get-set_self key (with_status executed op) c'.operations),
      differ,
    )
