-- ===== src/Timelock/Defs.antt =====
-- contracts/timelock/TimelockController.ts, method by method, with TimelockLib and the structures.
use current_dao_contracts.Base.{
  ⊤, ℤ, ◌+ℤ◌, ltb_ℤ, leb_ℤ, String, ◌==◌, concat, slice_to, show_number, Bool, true, false, not,
  ◌&&◌, none, some, List, [], ◌∷◌, Dict, get, set, has_key, Set, has, add, add_all, Call, pure,
  gets, throw_if, or_throw, modify, ◌>>=◌, ◌>>◌,
}

pub data OperationStatus : Type 0 where
  pending ready executed canceled : OperationStatus

abbrev pub is_pending : OperationStatus → Bool
is_pending pending = true
is_pending _ = false

abbrev pub is_executed : OperationStatus → Bool
is_executed executed = true
is_executed _ = false

pub record Operation : Type 0 where
  pub id : String
  pub target : String
  pub value : ℤ
  pub payload : String  -- `data`
  pub predecessor : String
  pub salt : String
  pub delay : ℤ
  pub timestamp : ℤ
  pub eta : ℤ
  pub status : OperationStatus

-- `TimelockLib.isReady`
unfoldable pub is_ready : Operation → ℤ → Bool
is_ready operation current_time = is_pending operation.status && leb_ℤ operation.eta current_time

-- `TimelockLib.hash`
unfoldable pub hash : String → ℤ → String → String → String → String
unfolding show_number
hash target value payload predecessor salt = concat (
    "OP_HASH_"
    ∷ slice_to 10 target
    ∷ "_"
    ∷ show_number value
    ∷ "_"
    ∷ slice_to 10 payload
    ∷ "_"
    ∷ slice_to 10 predecessor
    ∷ "_"
    ∷ slice_to 10 salt
    ∷ [])

pub record Controller : Type 0 where
  pub operations : Dict Operation
  pub min_delay : ℤ
  pub proposers : Set
  pub executors : Set
  pub cancellers : Set
  pub admin : String

unfoldable pub new : ℤ → List String → List String → String → Controller
new min_delay proposers executors admin = record {
  operations = [];
  min_delay = min_delay;
  proposers = add_all proposers [];
  executors = add_all executors [];
  cancellers = add admin [];
  admin = admin;
}

unfoldable pub only_proposer : String → Call Controller ⊤
only_proposer caller = do
  throw_if (← gets (λ c. not (has caller c.proposers) && not (caller == c.admin)))
      "Timelock: caller is not a proposer"

unfoldable pub only_executor : String → Call Controller ⊤
only_executor caller = do
  throw_if (← gets (λ c. not (has caller c.executors) && not (caller == c.admin)))
      "Timelock: caller is not an executor"

unfoldable pub only_canceller : String → Call Controller ⊤
only_canceller caller = do
  throw_if (← gets (λ c. not (has caller c.cancellers) && not (caller == c.admin)))
      "Timelock: caller is not a canceller"

unfoldable pub only_admin : String → Call Controller ⊤
only_admin caller = do
  throw_if (← gets (λ c. not (caller == c.admin))) "Timelock: caller is not an admin"

unfoldable pub is_operation_executed : String → Controller → Bool
is_operation_executed id c = elim (get id c.operations) [
  | none ↦ false
  | some op ↦ is_executed op.status
]

unfoldable pub is_operation_pending : String → Controller → Bool
is_operation_pending id c = elim (get id c.operations) [
  | none ↦ false
  | some op ↦ is_pending op.status
]

unfoldable pub is_operation_ready : ℤ → String → Controller → Bool
unfolding is_ready
is_operation_ready now id c = elim (get id c.operations) [
  | none ↦ false
  | some op ↦ is_ready op now
]

-- The operation that `schedule` stores.
unfoldable pub queued : ℤ → String → ℤ → String → String → String → ℤ → Operation
queued now target value payload predecessor salt delay = record {
  id = hash target value payload predecessor salt;
  target = target;
  value = value;
  payload = payload;
  predecessor = predecessor;
  salt = salt;
  delay = delay;
  timestamp = now;
  eta = now +ℤ delay;
  status = pending;
}

unfoldable pub schedule :
    ℤ → String → ℤ → String → String → String → ℤ → String → Call Controller String
unfolding only_proposer queued
schedule now target value payload predecessor salt delay caller = do
  only_proposer caller
  throw_if (← gets (λ c. ltb_ℤ delay c.min_delay)) "Timelock: delay below minimum"
  let id = hash target value payload predecessor salt
  throw_if (← gets (λ c. has_key id c.operations)) "Timelock: operation already scheduled"
  modify λ c. record c {
    operations = set id (queued now target value payload predecessor salt delay) c.operations;
  }
  pure id

-- `predecessor && predecessor !== "0x0" && !this.isOperationExecuted(predecessor)`
unfoldable pub is_blocked : String → Controller → Bool
unfolding is_operation_executed
is_blocked predecessor c =
    not (predecessor == "")
    && not (predecessor == "0x0")
    && not (is_operation_executed predecessor c)

unfoldable pub execute : ℤ → String → ℤ → String → String → String → String → Call Controller ⊤
unfolding only_executor is_blocked
execute now target value payload predecessor salt caller = do
  only_executor caller
  let id = hash target value payload predecessor salt
  op ← or_throw (← gets (λ c. get id c.operations)) "Timelock: operation not found"
  throw_if (not (is_pending op.status)) "Timelock: operation already executed or canceled"
  throw_if (ltb_ℤ now op.eta) "Timelock: operation delay not passed"
  throw_if (← gets (is_blocked predecessor)) "Timelock: predecessor operation not executed"
  modify λ c. record c { operations = set id (record op { status = executed }) c.operations }

unfoldable pub cancel : String → String → Call Controller ⊤
unfolding only_canceller
cancel id caller = do
  only_canceller caller
  op ← or_throw (← gets (λ c. get id c.operations)) "Timelock: operation not found"
  throw_if (not (is_pending op.status)) "Timelock: operation not pending"
  modify λ c. record c { operations = set id (record op { status = canceled }) c.operations }

unfoldable pub update_delay : ℤ → String → Call Controller ⊤
unfolding only_admin
update_delay new_delay caller = do only_admin caller; modify λ c. record c { min_delay = new_delay }

pub data Role : Type 0 where
  proposer executor canceller : Role

abbrev pub give : Role → String → Controller → Controller
give proposer account c = record c { proposers = add account c.proposers }
give executor account c = record c { executors = add account c.executors }
give canceller account c = record c { cancellers = add account c.cancellers }

unfoldable pub grant_role : Role → String → String → Call Controller ⊤
unfolding only_admin
grant_role role account caller = do only_admin caller; modify (give role account)

unfoldable pub get_min_delay : Controller → ℤ
get_min_delay c = c.min_delay

abbrev pub hash_operation : String → ℤ → String → String → String → String
hash_operation target value payload predecessor salt = hash target value payload predecessor salt
