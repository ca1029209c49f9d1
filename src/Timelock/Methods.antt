-- ===== src/Timelock/Methods.antt =====
-- The methods that write, as one step, and what a step does to a single operation.
use current_dao_contracts.Base.{
  ℤ, ◌≤ℤ◌, ◌≡◌, ◌⊎◌, ◌∙◌, String, ◌==◌, true, Option, none, some, List, arith, eq_iff, get, set,
  get-set, get-set_self, get-set_ne, has, Option-cases, Bool-cases, inl, inr,
}
use mathlib.Core.Path.{subst}
use current_dao_contracts.Timelock.Defs.{
  Controller, Operation, OperationStatus, pending, executed, canceled, new, hash, queued, schedule,
  execute, cancel, update_delay, is_blocked, Role, grant_role, proposer, executor, canceller,
}

pub data Method : Type 0 where
  schedules : String → ℤ → String → String → String → ℤ → Method
  executes : String → ℤ → String → String → String → Method
  cancels : String → Method
  updates_delay : ℤ → Method
  grants : Role → String → Method

-- The controller after the call, whether it returned or threw.
unfoldable pub after : ℤ → String → Method → Controller → Controller
after now caller (schedules target value payload predecessor salt delay) c =
    (schedule now target value payload predecessor salt delay caller c).1
after now caller (executes target value payload predecessor salt) c =
    (execute now target value payload predecessor salt caller c).1
after now caller (cancels id) c = (cancel id caller c).1
after now caller (updates_delay delay) c = (update_delay delay caller c).1
after now caller (grants role account) c = (grant_role role account caller c).1

-- The controllers that calls by anybody, at any times, lead to from a new one.
pub data Reach : Controller → Type 0 where
  start :
      (min_delay : ℤ) (proposers executors : List String) (admin : String)
      → Reach (new min_delay proposers executors admin)
  step :
      {c : Controller} (now : ℤ) (caller : String) (m : Method)
      → Reach c
      → Reach (after now caller m c)

abbrev pub MayPropose : String → Controller → Type 0
MayPropose caller c = (has caller c.proposers ≡ true) ⊎ (caller ≡ c.admin)

abbrev pub MayExecute : String → Controller → Type 0
MayExecute caller c = (has caller c.executors ≡ true) ⊎ (caller ≡ c.admin)

abbrev pub MayCancel : String → Controller → Type 0
MayCancel caller c = (has caller c.cancellers ≡ true) ⊎ (caller ≡ c.admin)

abbrev pub with_status : OperationStatus → Operation → Operation
with_status s op = record op { status = s }

-- What a call by `caller` at `now` may have made of the stored operation `op`.
abbrev pub Moves : ℤ → String → Controller → Operation → Option Operation → Type 0
Moves now caller c op found =
    (found ≡ some op)
    ⊎ (op.status ≡ pending)
      × (op.eta ≤ℤ now)
      × MayExecute caller c
      × (found ≡ some (with_status executed op))
    ⊎ (op.status ≡ pending) × MayCancel caller c × (found ≡ some (with_status canceled op))

-- What a call that holds back until its checks have passed may have made of the controller.
abbrev Settles :
    OperationStatus → (Operation → Type 0) → String → Controller → Operation → Controller → Type 0
Settles s Allowed key c op c' =
    (c' ≡ c)
    ⊎ (op.status ≡ pending)
      × Allowed op
      × (c' ≡ record c { operations = set key (with_status s op) c.operations })

execute-Settles :
    (now : ℤ) (caller target : String) (value : ℤ) (payload predecessor salt : String)
    (c : Controller) (op : Operation)
    → get (hash target value payload predecessor salt) c.operations ≡ some op
    → Settles executed
        (λ o. (o.eta ≤ℤ now) × MayExecute caller c)
        (hash target value payload predecessor salt)
        c
        op
        (execute now target value payload predecessor salt caller c).1
unfolding execute
execute-Settles now caller target value payload predecessor salt c op e =
    elim (Bool-cases (is_blocked predecessor c)) [
      | inl held ↦ ground (arith, eq_iff caller c.admin)
      | inr free ↦ ground (arith, eq_iff caller c.admin)
    ]

execute_absent :
    (now : ℤ) (caller target : String) (value : ℤ) (payload predecessor salt : String)
    (c : Controller)
    → get (hash target value payload predecessor salt) c.operations ≡ none
    → (execute now target value payload predecessor salt caller c).1 ≡ c
unfolding execute
execute_absent now caller target value payload predecessor salt c e = ground arith

cancel_absent :
    (caller key : String) (c : Controller)
    → get key c.operations ≡ none
    → (cancel key caller c).1 ≡ c
unfolding cancel
cancel_absent caller key c e = ground arith

cancel-Settles :
    (caller key : String) (c : Controller) (op : Operation)
    → get key c.operations ≡ some op
    → Settles canceled (λ _. MayCancel caller c) key c op (cancel key caller c).1
unfolding cancel
cancel-Settles caller key c op e = ground (arith, eq_iff caller c.admin)

-- The same, seen at any one id.
Settles-at :
    (s : OperationStatus) (Allowed : Operation → Type 0) (key id : String) (c c' : Controller)
    (found op : Operation)
    → get key c.operations ≡ some found
    → get id c.operations ≡ some op
    → Settles s Allowed key c found c'
    → (get id c'.operations ≡ some op)
      ⊎ (op.status ≡ pending) × Allowed op × (get id c'.operations ≡ some (with_status s op))
Settles-at s Allowed key id c c' found op at e (inl same) = inl (rw same e)
Settles-at s Allowed key id c c' found op at e (inr (p, a, wrote)) = elim (Bool-cases (key == id)) [
  | inl here ↦
      let k : key ≡ id = (eq_iff key id).0 here in
      let f : found ≡ op = cc (k, at, e) in
      inr (
        rw (← f) p,
        subst Allowed f a,
        rw (wrote, k, f) (get-set_self id (with_status s op) c.operations),
      )
  | inr elsewhere ↦ inl (
      rw wrote (
        get-set_ne key id (with_status s found) c.operations
          (λ k. cc (elsewhere, (eq_iff key id).1 k))
        ∙ e))
]

execute-Moves :
    (now : ℤ) (caller id target : String) (value : ℤ) (payload predecessor salt : String)
    (c : Controller) (op : Operation)
    → get id c.operations ≡ some op
    → Moves now caller c op
        (get id (execute now target value payload predecessor salt caller c).1.operations)
execute-Moves now caller id target value payload predecessor salt c op e =
    let key = hash target value payload predecessor salt in
    let c' = (execute now target value payload predecessor salt caller c).1 in
    elim (Option-cases (get key c.operations)) [
      | inl absent ↦
          inl (rw (execute_absent now caller target value payload predecessor salt c absent) e)
      | inr (found, at) ↦
          elim (Settles-at executed (λ o. (o.eta ≤ℤ now) × MayExecute caller c) key id c c' found op
            at e (execute-Settles now caller target value payload predecessor salt c found at)) [
              | inl same ↦ inl same
              | inr (p, (q, may), wrote) ↦ inr (inl (p, q, may, wrote))
            ]
    ]

cancel-Moves :
    (now : ℤ) (caller id key : String) (c : Controller) (op : Operation)
    → get id c.operations ≡ some op
    → Moves now caller c op (get id (cancel key caller c).1.operations)
cancel-Moves now caller id key c op e = elim (Option-cases (get key c.operations)) [
  | inl absent ↦ inl (rw (cancel_absent caller key c absent) e)
  | inr (found, at) ↦
      elim (Settles-at canceled (λ _. MayCancel caller c) key id c (cancel key caller c).1 found op
        at e (cancel-Settles caller key c found at)) [
          | inl same ↦ inl same
          | inr (p, may, wrote) ↦ inr (inr (p, may, wrote))
        ]
]

-- An id that is free stays free.
Settles-free :
    (s : OperationStatus) (Allowed : Operation → Type 0) (key id : String) (c c' : Controller)
    (found : Operation)
    → get key c.operations ≡ some found
    → get id c.operations ≡ none
    → Settles s Allowed key c found c'
    → get id c'.operations ≡ none
Settles-free s Allowed key id c c' found at e (inl same) = rw same e
Settles-free s Allowed key id c c' found at e (inr (p, a, wrote)) =
    rw wrote (get-set_ne key id (with_status s found) c.operations (λ k. cc (k, at, e)) ∙ e)

pub execute_free :
    (now : ℤ) (caller id target : String) (value : ℤ) (payload predecessor salt : String)
    (c : Controller)
    → get id c.operations ≡ none
    → get id (execute now target value payload predecessor salt caller c).1.operations ≡ none
execute_free now caller id target value payload predecessor salt c e =
    let key = hash target value payload predecessor salt in
    elim (Option-cases (get key c.operations)) [
      | inl absent ↦ rw (execute_absent now caller target value payload predecessor salt c absent) e
      | inr (found, at) ↦
          Settles-free executed (λ o. (o.eta ≤ℤ now) × MayExecute caller c) key id c
            (execute now target value payload predecessor salt caller c).1 found at e
            (execute-Settles now caller target value payload predecessor salt c found at)
    ]

pub cancel_free :
    (caller id key : String) (c : Controller)
    → get id c.operations ≡ none
    → get id (cancel key caller c).1.operations ≡ none
cancel_free caller id key c e = elim (Option-cases (get key c.operations)) [
  | inl absent ↦ rw (cancel_absent caller key c absent) e
  | inr (found, at) ↦
      Settles-free canceled (λ _. MayCancel caller c) key id c (cancel key caller c).1 found at e
        (cancel-Settles caller key c found at)
]

-- No call removes an operation or changes it, but for two moves, both out of the pending state: to
-- executed, not before its time and by an executor or the administrator, and to canceled, by a
-- canceller or the administrator. So an executed or canceled operation stays as it is for good.
pub operation-Moves :
    (now : ℤ) (caller id : String) (m : Method) (c : Controller) (op : Operation)
    → get id c.operations ≡ some op
    → Moves now caller c op (get id (after now caller m c).operations)
unfolding after schedule execute cancel update_delay grant_role
operation-Moves now caller id (schedules target value payload predecessor salt delay) c op e =
    let key = hash target value payload predecessor salt in
    ground (
      arith,
      eq_iff key id,
      get-set key id (queued now target value payload predecessor salt delay) c.operations,
    )
operation-Moves now caller id (executes target value payload predecessor salt) c op e =
    execute-Moves now caller id target value payload predecessor salt c op e
operation-Moves now caller id (cancels key) c op e = cancel-Moves now caller id key c op e
operation-Moves now caller id (updates_delay delay) c op e = ground arith
operation-Moves now caller id (grants proposer account) c op e = ground arith
operation-Moves now caller id (grants executor account) c op e = ground arith
operation-Moves now caller id (grants canceller account) c op e = ground arith
