-- ===== src/Escrow/State.antt =====
-- The state of EnergyEscrow and what every method uses. A trade, a milestone, a dispute or a request is
-- an object that its table holds: a method reads the field that changes when it uses it. The handlers
-- of events are outside the contract: `emitted` lists the calls of them, which are taken to return.
use current_dao_contracts.Base.{
  ℕ, zero, ⊤, suc, ◌-◌, length, ltb, ℤ, pos, String, ◌==◌, Bool, true, false, not, ◌&&◌, Option,
  List, [], ◌∷◌, ◌++◌, Dict, Table, find, put, values, Call, Outcome, ok, throws, pure, gets,
  or_throw, throw_if, modify, lift, ◌>>=◌, ◌>>◌, if◌then◌else◌, eqb, filter,
}
use current_dao_contracts.Escrow.Text.{is_valid_address}
use current_dao_contracts.Escrow.Trade.{
  Amount, EscrowStatus, EnergyTrade, TradeMilestone, TradeDispute, EmergencyRequest,
  DisputeResolution, with_status,
}
use current_dao_contracts.Escrow.Checks.{validate_addresses, validate_amount}
use current_dao_contracts.Escrow.Limiter.{check_operation}

-- A field of the details of an audit entry.
pub data Detail : Type 0 where
  text : String → Detail
  id : ℕ → Detail
  optional_id : Option ℕ → Detail
  number : ℤ → Detail
  amount : Amount → Detail
  resolution : DisputeResolution → Detail

-- The random identifier of an entry, which nothing reads, is left out.
pub record AuditEntry : Type 0 where
  pub action : String
  pub actor : String
  pub details : Dict Detail
  pub timestamp : ℤ

-- The arguments are the fields of the event in the order of the source, less its time.
pub data EventData : Type 0 where
  escrow_created : ℕ → String → String → String → ℤ → ℤ → ℤ → ℕ → EventData
  tokens_deposited : ℕ → String → ℤ → ℤ → EventData
  milestone_completed : ℕ → ℕ → String → EventData
  tokens_released : ℕ → String → Amount → Option ℕ → EventData
  dispute_created : ℕ → ℕ → String → String → String → EventData
  dispute_resolved : ℕ → ℕ → String → DisputeResolution → EventData
  penalty_applied : ℕ → String → Amount → String → EventData
  emergency_release_requested : ℕ → ℕ → String → String → ℤ → EventData
  emergency_approved : ℕ → ℕ → String → ℕ → ℤ → EventData
  emergency_executed : ℕ → ℕ → String → String → ℤ → EventData
  escrow_cancelled : ℕ → String → String → ℤ → EventData
  auto_release : ℕ → String → String → ℤ → EventData

pub record Event : Type 0 where
  pub timestamp : ℤ
  pub content : EventData

pub record EnergyEscrow : Type 0 where
  pub admin : String
  pub paused : Bool
  pub penalty_percent : ℤ
  pub auto_release_period : ℤ
  pub required_emergency_approvals : ℤ
  pub trades : Table EnergyTrade
  pub milestones : Table TradeMilestone
  pub disputes : Table TradeDispute
  pub emergency_requests : Table EmergencyRequest
  pub audit_trail : List AuditEntry
  pub next_trade_id : ℕ
  pub next_milestone_id : ℕ
  pub next_dispute_id : ℕ
  pub next_emergency_request_id : ℕ
  pub entered : Bool
  pub operations : Dict (List ℤ)
  pub emitted : List Event

-- `xs.slice(-n)` for more than `n` entries.
unfoldable pub drop_first {ℓ} : {A : Type ℓ} → ℕ → List A → List A
drop_first n [] = []
drop_first zero (x ∷ xs) = x ∷ xs
drop_first (suc n) (x ∷ xs) = drop_first n xs

-- What the trail keeps: the last 5000 entries as soon as there are more than 10000.
unfoldable pub kept_trail : List AuditEntry → List AuditEntry
unfolding drop_first
kept_trail trail =
    if ltb 10000 (length trail) then drop_first (length trail - 5000) trail else trail

unfoldable pub add_audit_entry : ℤ → String → String → Dict Detail → Call EnergyEscrow ⊤
unfolding kept_trail
add_audit_entry now action actor details = modify λ e. record e {
  audit_trail = kept_trail (
      e.audit_trail
      ++ (record { action = action; actor = actor; details = details; timestamp = now } ∷ []));
}

unfoldable pub emit_event : ℤ → EventData → Call EnergyEscrow ⊤
emit_event now content =
    modify
      λ e. record e { emitted = e.emitted ++ (record { timestamp = now; content = content } ∷ []) }

unfoldable pub new : ℤ → String → Outcome EnergyEscrow
unfolding kept_trail
new now admin =
    if not (is_valid_address admin)
    then throws "EnergyEscrow: Invalid admin address"
    else ok (record {
      admin = admin;
      paused = false;
      penalty_percent = pos 10;
      auto_release_period = pos 172800000;
      required_emergency_approvals = pos 3;
      trades = [];
      milestones = [];
      disputes = [];
      emergency_requests = [];
      audit_trail = kept_trail (
          record {
            action = "CONTRACT_INITIALIZED";
            actor = admin;
            details = ("admin", text admin) ∷ [];
            timestamp = now;
          }
          ∷ []);
      next_trade_id = 1;
      next_milestone_id = 1;
      next_dispute_id = 1;
      next_emergency_request_id = 1;
      entered = false;
      operations = [];
      emitted = [];
    })

unfoldable pub when_not_paused : Call EnergyEscrow ⊤
when_not_paused = do throw_if (← gets (λ e. e.paused)) "EnergyEscrow: Contract is paused"

unfoldable pub only_admin : String → Call EnergyEscrow ⊤
only_admin caller = do
  throw_if (← gets (λ e. not (caller == e.admin))) "EnergyEscrow: Caller is not admin"

-- Ten operations in 60 seconds.
unfoldable pub check_rate_limit : ℤ → String → Call EnergyEscrow ⊤
check_rate_limit now caller = do
  checked ← gets (λ e. check_operation 10 (pos 60000) now caller e.operations)
  modify λ e. record e { operations = checked.1 }
  throw_if (not checked.0) "EnergyEscrow: Rate limit exceeded"

-- The guard is left again before the body of the method runs.
unfoldable pub non_reentrant : Call EnergyEscrow ⊤
non_reentrant = do
  throw_if (← gets (λ e. e.entered)) "EscrowLib: Reentrancy guard - contract reentered"
  modify λ e. record e { entered = true }
  modify λ e. record e { entered = false }

-- The three calls that a method starts with.
unfoldable pub guards : ℤ → String → Call EnergyEscrow ⊤
unfolding when_not_paused check_rate_limit non_reentrant
guards now caller = do when_not_paused; check_rate_limit now caller; non_reentrant

unfoldable pub get_trade_or_throw : ℕ → Call EnergyEscrow EnergyTrade
get_trade_or_throw escrow_id = do
  found ← gets (λ e. find escrow_id e.trades)
  or_throw found "EnergyEscrow: Trade not found"

abbrev pub get_trade_milestones : ℕ → EnergyEscrow → List TradeMilestone
get_trade_milestones escrow_id e = filter (λ m. eqb m.trade_id escrow_id) (values e.milestones)

-- `trade.updateStatus(next)`
unfoldable pub update_status : ℕ → EscrowStatus → Call EnergyEscrow ⊤
unfolding get_trade_or_throw
update_status escrow_id next = do
  trade ← get_trade_or_throw escrow_id
  changed ← lift (with_status next trade)
  modify λ e. record e { trades = put escrow_id changed e.trades }

unfoldable pub release_tokens : ℤ → ℕ → String → Amount → String → Option ℕ → Call EnergyEscrow Bool
unfolding add_audit_entry emit_event
release_tokens now escrow_id to amt caller milestone_id = do
  guards now caller
  trade ← get_trade_or_throw escrow_id
  throw_if
      (← gets (λ e.
        not (caller == trade.buyer) && not (caller == trade.mediator) && not (caller == e.admin)))
      "EnergyEscrow: Unauthorized to release tokens"
  lift (validate_addresses (to ∷ []))
  lift (validate_amount amt "release amount")
  add_audit_entry now "TOKENS_RELEASED" caller (
      ("escrowId", id escrow_id)
      ∷ ("to", text to)
      ∷ ("amount", amount amt)
      ∷ ("milestoneId", optional_id milestone_id)
      ∷ [])
  emit_event now (tokens_released escrow_id to amt milestone_id)
  pure true
