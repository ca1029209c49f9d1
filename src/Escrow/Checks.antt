-- ===== src/Escrow/Checks.antt =====
-- The checks and calculations of EscrowLib. A `number` is never NaN or infinite here, and the check of
-- the decimals of an amount is left out: an integer, and a hundredth part of one, passes it.
use current_dao_contracts.Base.{
  ℕ, ⊤, length, ltb, eqb, ℤ, pos, ◌+ℤ◌, ◌-ℤ◌, ◌*ℤ◌, ltb_ℤ, leb_ℤ, String, ◌==◌, concat, text_length,
  Bool, not, ◌&&◌, ◌||◌, List, [], ◌∷◌, filter, has, add_all, if◌then◌else◌, Outcome, ok, throws,
}
use current_dao_contracts.Escrow.Text.{is_valid_address, trim}
use current_dao_contracts.Escrow.Trade.{
  Amount, EnergyTrade, TradeMilestone, TradeDispute, EmergencyRequest, is_active, is_open,
}

unfoldable pub validate_addresses : List String → Outcome ⊤
validate_addresses [] = ok tt
validate_addresses (address ∷ rest) =
    let later = validate_addresses rest in
    if is_valid_address address
    then later
    else throws (concat ("EscrowLib: Invalid address format: " ∷ address ∷ []))

unfoldable pub validate_unique_addresses : List String → Outcome ⊤
validate_unique_addresses addresses =
    if eqb (length (add_all addresses [])) (length addresses)
    then ok tt
    else throws "EscrowLib: Duplicate addresses detected"

unfoldable pub validate_amount : Amount → String → Outcome ⊤
validate_amount amount field_name =
    if leb_ℤ amount.num (pos 0)
    then throws (concat ("EscrowLib: " ∷ field_name ∷ " must be positive" ∷ []))
    else ok tt

unfoldable pub validate_percent : ℤ → String → Outcome ⊤
validate_percent percent field_name =
    if ltb_ℤ percent (pos 0) || ltb_ℤ (pos 100) percent
    then throws (concat ("EscrowLib: " ∷ field_name ∷ " must be between 0 and 100" ∷ []))
    else ok tt

abbrev year : ℤ
year = pos 31536000000

unfoldable pub validate_timestamp : ℤ → ℤ → Outcome ⊤
validate_timestamp now timestamp =
    if leb_ℤ timestamp (pos 0)
    then throws "EscrowLib: Timestamp must be positive"
    else if ltb_ℤ timestamp (now -ℤ year) || ltb_ℤ (now +ℤ pos 10 *ℤ year) timestamp
    then throws "EscrowLib: Timestamp is out of reasonable range"
    else ok tt

-- `EscrowLib.isTimeExpired`
unfoldable pub is_time_expired : ℤ → ℤ → Outcome Bool
unfolding validate_timestamp
is_time_expired now timestamp = elim (validate_timestamp now timestamp) [
  | throws e ↦ throws e
  | ok _ ↦ ok (leb_ℤ timestamp now)
]

unfoldable pub calculate_penalty_amount : ℤ → ℤ → Outcome Amount
unfolding validate_percent
calculate_penalty_amount amount penalty_percent =
    if leb_ℤ amount (pos 0)
    then throws "EscrowLib: penalty amount base must be positive"
    else elim (validate_percent penalty_percent "penalty percent") [
      | throws e ↦ throws e
      | ok _ ↦
          if ltb_ℤ (pos 50) penalty_percent
          then throws "EscrowLib: Penalty percent cannot exceed 50%"
          else ok (record { num = amount *ℤ penalty_percent; den = pos 100 })
    ]

unfoldable pub calculate_release_after_penalty : ℤ → ℤ → Outcome Amount
unfolding calculate_penalty_amount
calculate_release_after_penalty total_amount penalty_percent =
    elim (calculate_penalty_amount total_amount penalty_percent) [
      | throws e ↦ throws e
      | ok penalty ↦
          ok (record { num = total_amount *ℤ penalty.den -ℤ penalty.num; den = penalty.den })
    ]

-- The share of each milestone in the currency and in the energy.
unfoldable pub calculate_milestone_amounts : ℤ → ℤ → ℕ → Outcome (Amount × Amount)
calculate_milestone_amounts total_amount total_energy milestone_count =
    if leb_ℤ total_amount (pos 0)
    then throws "EscrowLib: total amount must be positive"
    else if leb_ℤ total_energy (pos 0)
    then throws "EscrowLib: total energy must be positive"
    else if ltb milestone_count 1 || ltb 100 milestone_count
    then throws "EscrowLib: Invalid milestone count"
    else ok (
      record { num = total_amount; den = pos milestone_count },
      record { num = total_energy; den = pos milestone_count },
    )

-- `validateMilestoneCompletion` on the one milestone that it is given, with its own id.
unfoldable pub validate_milestone_completion : EnergyTrade → TradeMilestone → Outcome ⊤
validate_milestone_completion trade milestone =
    if not (eqb milestone.trade_id trade.id)
    then throws "EscrowLib: Milestone does not belong to this trade"
    else if milestone.completed
    then throws "EscrowLib: Milestone already completed"
    else ok tt

abbrev pub participants : EnergyTrade → List String
participants trade = trade.buyer ∷ trade.seller ∷ trade.mediator ∷ []

abbrev pub open_disputes : ℕ → List TradeDispute → List TradeDispute
open_disputes trade_id disputes = filter (λ d. eqb d.trade_id trade_id && is_open d.status) disputes

unfoldable pub validate_dispute_creation :
    EnergyTrade → String → String → List TradeDispute → Outcome ⊤
validate_dispute_creation trade initiator respondent existing =
    if not (is_active trade.status)
    then throws "EscrowLib: Trade must be active to create dispute"
    else if trade.buyer == "" || trade.seller == "" || trade.mediator == ""
    then throws "EscrowLib: Trade has incomplete participant data"
    else if not (has initiator (participants trade))
    then throws "EscrowLib: Initiator is not a trade participant"
    else if not (has respondent (filter (λ p. not (p == initiator)) (participants trade)))
    then throws "EscrowLib: Respondent is not a valid trade participant"
    else if ltb 0 (length (open_disputes trade.id existing))
    then throws "EscrowLib: Trade already has an open dispute"
    else ok tt

unfoldable pub validate_dispute_resolution : TradeDispute → String → EnergyTrade → Outcome ⊤
validate_dispute_resolution dispute resolver trade =
    if not (is_open dispute.status)
    then throws "EscrowLib: Dispute is not open"
    else if not (resolver == trade.mediator)
    then throws "EscrowLib: Only mediator can resolve disputes"
    else ok tt

unfoldable pub validate_emergency_request : EnergyTrade → String → String → ℤ → Outcome ⊤
validate_emergency_request trade initiator reason required_approvals =
    if trim reason == ""
    then throws "EscrowLib: Emergency reason cannot be empty"
    else if ltb 1000 (text_length reason)
    then throws "EscrowLib: Emergency reason too long"
    else if ltb_ℤ required_approvals (pos 2) || ltb_ℤ (pos 10) required_approvals
    then throws "EscrowLib: Required approvals must be between 2 and 10"
    else if not (has initiator (participants trade))
    then throws "EscrowLib: Initiator is not a trade participant"
    else ok tt

unfoldable pub validate_emergency_approval : EmergencyRequest → String → EnergyTrade → Outcome ⊤
validate_emergency_approval request approver trade =
    if request.executed
    then throws "EscrowLib: Emergency request already executed"
    else if has approver request.approvals
    then throws "EscrowLib: Already approved by this address"
    else if not (has approver (participants trade))
    then throws "EscrowLib: Approver is not a trade participant"
    else ok tt
