-- ===== src/Escrow/Trade.antt =====
-- TradeStructure.ts: trades, milestones, disputes and emergency requests, as objects of their own.
-- An amount is an exact fraction where the source has a double.
use current_dao_contracts.Base.{
  ℕ, length, ltb, ℤ, pos, ◌*ℤ◌, ltb_ℤ, leb_ℤ, String, ◌==◌, Bool, true, false, not, ◌&&◌, ◌||◌,
  Option, none, some, List, [], ◌∷◌, ◌++◌, has, concat, ⊤, if◌then◌else◌, Outcome, ok, throws,
}
use current_dao_contracts.Escrow.Text.{trim}

-- `num / den`, the denominator positive.
pub record Amount : Type 0 where
  pub num : ℤ
  pub den : ℤ

abbrev pub whole : ℤ → Amount
whole n = record { num = n; den = pos 1 }

pub data EscrowStatus : Type 0 where
  pending active disputed completed cancelled emergency_release : EscrowStatus

pub data DisputeStatus : Type 0 where
  opened resolved rejected : DisputeStatus

pub data DisputeCategory : Type 0 where
  delivery_failure quality_issue payment_issue timing_issue fraud technical other : DisputeCategory

-- `validTransitions`
abbrev pub allows : EscrowStatus → EscrowStatus → Bool
allows pending active = true
allows pending cancelled = true
allows pending _ = false
allows active completed = true
allows active disputed = true
allows active emergency_release = true
allows active _ = false
allows disputed completed = true
allows disputed cancelled = true
allows disputed _ = false
allows emergency_release completed = true
allows emergency_release cancelled = true
allows emergency_release _ = false
allows completed _ = false
allows cancelled _ = false

abbrev pub is_pending : EscrowStatus → Bool
is_pending s = elim s [ pending ↦ true | _ ↦ false ]

abbrev pub is_active : EscrowStatus → Bool
is_active s = elim s [ active ↦ true | _ ↦ false ]

abbrev pub is_over : EscrowStatus → Bool
is_over s = elim s [ completed ↦ true | cancelled ↦ true | _ ↦ false ]

abbrev pub is_open : DisputeStatus → Bool
is_open s = elim s [ opened ↦ true | _ ↦ false ]

pub record EnergyTrade : Type 0 where
  pub id : ℕ
  pub buyer : String
  pub seller : String
  pub mediator : String
  pub energy_amount : ℤ
  pub price_per_kwh : Amount
  pub total_value : Amount
  pub currency_amount : ℤ
  pub created_at : ℤ
  pub release_time : ℤ
  pub status : EscrowStatus
  pub milestone_count : ℕ

-- `validateTradeData`
unfoldable pub validate_trade_data :
    ℤ → String → String → String → ℤ → Amount → ℤ → ℤ → ℕ → Outcome ⊤
validate_trade_data now buyer seller mediator energy_amount price_per_kwh currency_amount
      release_time milestone_count =
    if buyer == "" || seller == "" || mediator == ""
    then throws "TradeStructure: Invalid participant addresses"
    else if buyer == seller || buyer == mediator || seller == mediator
    then throws "TradeStructure: Duplicate participant addresses"
    else if leb_ℤ energy_amount (pos 0)
    then throws "TradeStructure: Energy amount must be positive"
    else if leb_ℤ price_per_kwh.num (pos 0)
    then throws "TradeStructure: Price per kWh must be positive"
    else if leb_ℤ currency_amount (pos 0)
    then throws "TradeStructure: Currency amount must be positive"
    else if leb_ℤ release_time now
    then throws "TradeStructure: Release time must be in the future"
    else if ltb milestone_count 1 || ltb 100 milestone_count
    then throws "TradeStructure: Invalid milestone count"
    else ok tt

-- The constructor; no caller gives metadata.
unfoldable pub new_trade :
    ℤ → ℕ → String → String → String → ℤ → Amount → ℤ → ℤ → ℕ → Outcome EnergyTrade
new_trade now id buyer seller mediator energy_amount price_per_kwh currency_amount release_time
      milestone_count =
    elim (validate_trade_data now buyer seller mediator energy_amount price_per_kwh currency_amount
      release_time milestone_count) [
        | throws e ↦ throws e
        | ok _ ↦ ok (record {
          id = id;
          buyer = buyer;
          seller = seller;
          mediator = mediator;
          energy_amount = energy_amount;
          price_per_kwh = price_per_kwh;
          total_value = record {
            num = energy_amount *ℤ price_per_kwh.num;
            den = price_per_kwh.den;
          };
          currency_amount = currency_amount;
          created_at = now;
          release_time = release_time;
          status = pending;
          milestone_count = milestone_count;
        })
      ]

abbrev pub status_name : EscrowStatus → String
status_name pending = "PENDING"
status_name active = "ACTIVE"
status_name disputed = "DISPUTED"
status_name completed = "COMPLETED"
status_name cancelled = "CANCELLED"
status_name emergency_release = "EMERGENCY_RELEASE"

-- `EnergyTrade.updateStatus`
unfoldable pub with_status : EscrowStatus → EnergyTrade → Outcome EnergyTrade
with_status next trade =
    if allows trade.status next
    then ok (record trade { status = next })
    else throws (
        concat (
          "TradeStructure: Invalid status transition from "
          ∷ status_name trade.status
          ∷ " to "
          ∷ status_name next
          ∷ []))

pub record TradeMilestone : Type 0 where
  pub id : ℕ
  pub trade_id : ℕ
  pub energy_amount : Amount
  pub currency_amount : Amount
  pub description : String
  pub completed : Bool
  pub released : Bool
  pub completed_at : Option ℤ
  pub released_at : Option ℤ
  pub evidence : List String

unfoldable pub new_milestone : ℕ → ℕ → Amount → Amount → String → Outcome TradeMilestone
new_milestone id trade_id energy_amount currency_amount description =
    if leb_ℤ energy_amount.num (pos 0) || leb_ℤ currency_amount.num (pos 0)
    then throws "TradeMilestone: Amounts must be positive"
    else if trim description == ""
    then throws "TradeMilestone: Description cannot be empty"
    else ok (record {
      id = id;
      trade_id = trade_id;
      energy_amount = energy_amount;
      currency_amount = currency_amount;
      description = description;
      completed = false;
      released = false;
      completed_at = none;
      released_at = none;
      evidence = [];
    })

-- `TradeMilestone.complete`, on a milestone that is not completed.
abbrev pub as_completed : ℤ → TradeMilestone → TradeMilestone
as_completed now m = record m { completed = true; completed_at = some now }

unfoldable pub complete : ℤ → TradeMilestone → Outcome TradeMilestone
complete now m =
    if m.completed then throws "TradeMilestone: Already completed" else ok (as_completed now m)

pub record DisputeEvidence : Type 0 where
  pub submitted_by : String
  pub content : String
  pub timestamp : ℤ

pub record DisputeResolution : Type 0 where
  pub winner : String
  pub loser_penalty_percent : ℤ
  pub release_to_winner : Bool
  pub refund_to_loser : Bool
  pub reason : String

pub record TradeDispute : Type 0 where
  pub id : ℕ
  pub trade_id : ℕ
  pub initiator : String
  pub respondent : String
  pub reason : String
  pub category : DisputeCategory
  pub evidence : List DisputeEvidence
  pub status : DisputeStatus
  pub created_at : ℤ
  pub resolved_at : Option ℤ
  pub resolved_by : Option String
  pub resolution : Option DisputeResolution

unfoldable pub new_dispute :
    ℤ
    → ℕ
    → ℕ
    → String
    → String
    → String
    → DisputeCategory
    → List DisputeEvidence
    → Outcome TradeDispute
new_dispute now id trade_id initiator respondent reason category evidence =
    if initiator == "" || respondent == "" || initiator == respondent
    then throws "TradeDispute: Invalid participant addresses"
    else if trim reason == ""
    then throws "TradeDispute: Reason cannot be empty"
    else ok (record {
      id = id;
      trade_id = trade_id;
      initiator = initiator;
      respondent = respondent;
      reason = reason;
      category = category;
      evidence = evidence;
      status = opened;
      created_at = now;
      resolved_at = none;
      resolved_by = none;
      resolution = none;
    })

-- `TradeDispute.resolve`
unfoldable pub resolve : ℤ → DisputeResolution → String → TradeDispute → Outcome TradeDispute
resolve now resolution resolver d =
    if not (is_open d.status)
    then throws "TradeDispute: Already resolved"
    else ok (record d {
      resolution = some resolution;
      resolved_by = some resolver;
      resolved_at = some now;
      status = resolved;
    })

pub record EmergencyRequest : Type 0 where
  pub id : ℕ
  pub trade_id : ℕ
  pub initiator : String
  pub reason : String
  pub approvals : List String
  pub required_approvals : ℤ
  pub created_at : ℤ
  pub executed : Bool
  pub executed_at : Option ℤ
  pub executed_by : Option String

unfoldable pub new_request : ℤ → ℕ → ℕ → String → String → ℤ → Outcome EmergencyRequest
new_request now id trade_id initiator reason required_approvals =
    if initiator == "" || reason == ""
    then throws "EmergencyRequest: Invalid initiator or reason"
    else if ltb_ℤ required_approvals (pos 1)
    then throws "EmergencyRequest: Required approvals must be at least 1"
    else ok (record {
      id = id;
      trade_id = trade_id;
      initiator = initiator;
      reason = reason;
      approvals = [];
      required_approvals = required_approvals;
      created_at = now;
      executed = false;
      executed_at = none;
      executed_by = none;
    })

-- `EmergencyRequest.approve`
unfoldable pub approve : String → EmergencyRequest → Outcome EmergencyRequest
approve approver r =
    if r.executed
    then throws "EmergencyRequest: Already executed"
    else if has approver r.approvals
    then throws "EmergencyRequest: Already approved by this address"
    else ok (record r { approvals = r.approvals ++ (approver ∷ []) })

-- `EmergencyRequest.canExecute`
abbrev pub can_execute : EmergencyRequest → Bool
can_execute r = not r.executed && leb_ℤ r.required_approvals (pos (length r.approvals))

-- `EmergencyRequest.execute`
unfoldable pub execute : ℤ → String → EmergencyRequest → Outcome EmergencyRequest
execute now executor r =
    if not (can_execute r)
    then throws "EmergencyRequest: Cannot execute - insufficient approvals"
    else ok (record r { executed = true; executed_at = some now; executed_by = some executor })
