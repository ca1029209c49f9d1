-- ===== src/Escrow/Disputes.antt =====
-- The disputes and the emergency requests of EnergyEscrow.
use current_dao_contracts.Base.{
  ℕ, ⊤, suc, length, ℤ, pos, ltb_ℤ, String, ◌==◌, Bool, true, false, not, none, List, [], ◌∷◌, map,
  find, put, values, Call, Outcome, ok, pure, gets, or_throw, throw_if, modify, lift, ◌>>=◌, ◌>>◌,
  if◌then◌else◌,
}
use current_dao_contracts.Escrow.Text.{sanitize_string, sanitize_evidence}
use current_dao_contracts.Escrow.Trade.{
  TradeDispute, EmergencyRequest, Amount, whole, EnergyTrade, DisputeEvidence, DisputeResolution,
  other, new_dispute, resolve, new_request, approve, can_execute, execute, completed, disputed,
  emergency_release,
}
use current_dao_contracts.Escrow.Checks.{
  validate_addresses, validate_dispute_creation, validate_dispute_resolution,
  validate_emergency_request, validate_emergency_approval, calculate_penalty_amount,
  calculate_release_after_penalty,
}
use current_dao_contracts.Escrow.State.{
  text, id, number, resolution, EnergyEscrow, dispute_created, dispute_resolved, penalty_applied,
  emergency_release_requested, emergency_approved, emergency_executed, add_audit_entry, emit_event,
  guards, get_trade_or_throw, update_status, release_tokens,
}

-- A text of the evidence; its random identifier, which nothing reads, is left out.
abbrev pub evidence_of : ℤ → String → String → DisputeEvidence
evidence_of now caller content = record {
  submitted_by = caller;
  content = content;
  timestamp = now;
}

-- The id and the object of a new dispute.
unfoldable pub open_dispute :
    ℤ → ℕ → String → String → String → List DisputeEvidence → Call EnergyEscrow ℕ
open_dispute now escrow_id caller respondent reason evidence = do
  dispute_id ← gets (λ e. e.next_dispute_id)
  modify λ e. record e { next_dispute_id = suc e.next_dispute_id }
  dispute ← lift (new_dispute now dispute_id escrow_id caller respondent reason other evidence)
  modify λ e. record e { disputes = put dispute_id dispute e.disputes }
  pure dispute_id

unfoldable pub create_dispute : ℤ → ℕ → String → String → List String → String → Call EnergyEscrow ℕ
unfolding add_audit_entry emit_event
create_dispute now escrow_id respondent reason evidence caller = do
  guards now caller
  trade ← get_trade_or_throw escrow_id
  existing ← gets (λ e. values e.disputes)
  lift (validate_dispute_creation trade caller respondent existing)
  clean ← lift (sanitize_string reason 1000)
  texts ← lift (sanitize_evidence evidence)
  dispute_id ←
      open_dispute now escrow_id caller respondent clean (map (evidence_of now caller) texts)
  update_status escrow_id disputed
  add_audit_entry now "DISPUTE_CREATED" caller (
      ("disputeId", id dispute_id)
      ∷ ("escrowId", id escrow_id)
      ∷ ("respondent", text respondent)
      ∷ ("reason", text clean)
      ∷ [])
  emit_event now (dispute_created dispute_id escrow_id caller respondent clean)
  pure dispute_id

-- What `resolveDispute` does first: its checks, and `dispute.resolve`. The dispute and its trade.
unfoldable pub close_dispute :
    ℤ → ℕ → DisputeResolution → String → Call EnergyEscrow (TradeDispute × EnergyTrade)
close_dispute now dispute_id r caller = do
  found ← gets (λ e. find dispute_id e.disputes)
  dispute ← or_throw found "EnergyEscrow: Dispute not found"
  trade ← get_trade_or_throw dispute.trade_id
  lift (validate_dispute_resolution dispute caller trade)
  closed ← lift (resolve now r caller dispute)
  modify λ e. record e { disputes = put dispute_id closed e.disputes }
  pure (closed, trade)

-- The penalty of `resolveDispute`, which is announced and nothing else.
unfoldable pub penalty_if : Bool → ℤ → ℕ → EnergyTrade → DisputeResolution → Call EnergyEscrow ⊤
unfolding emit_event
penalty_if true now escrow_id trade r = do
  penalty ← lift (calculate_penalty_amount trade.currency_amount r.loser_penalty_percent)
  emit_event now (
      penalty_applied escrow_id (if r.winner == trade.buyer then trade.seller else trade.buyer)
        penalty r.reason)
penalty_if false now escrow_id trade r = pure tt

-- The amount of `resolveDispute`.
unfoldable pub award : EnergyTrade → DisputeResolution → Outcome Amount
award trade r =
    if r.refund_to_loser
    then ok (whole trade.currency_amount)
    else calculate_release_after_penalty trade.currency_amount r.loser_penalty_percent

unfoldable pub award_if :
    Bool → ℤ → ℕ → EnergyTrade → DisputeResolution → String → Call EnergyEscrow ⊤
award_if true now escrow_id trade r caller = do
  release_amount ← lift (award trade r)
  release_tokens now escrow_id r.winner release_amount caller none
  pure tt
award_if false now escrow_id trade r caller = pure tt

unfoldable pub resolve_dispute : ℤ → ℕ → DisputeResolution → String → Call EnergyEscrow Bool
unfolding add_audit_entry emit_event
resolve_dispute now dispute_id r caller = do
  guards now caller
  both ← close_dispute now dispute_id r caller
  penalty_if (ltb_ℤ (pos 0) r.loser_penalty_percent) now both.0.trade_id both.1 r
  award_if r.release_to_winner now both.0.trade_id both.1 r caller
  update_status both.0.trade_id completed
  add_audit_entry now "DISPUTE_RESOLVED" caller
      (("disputeId", id dispute_id) ∷ ("resolution", resolution r) ∷ [])
  emit_event now (dispute_resolved dispute_id both.0.trade_id caller r)
  pure true

-- The id and the object of a new request.
unfoldable pub open_request : ℤ → ℕ → String → String → ℤ → Call EnergyEscrow ℕ
open_request now escrow_id caller reason required = do
  request_id ← gets (λ e. e.next_emergency_request_id)
  modify λ e. record e { next_emergency_request_id = suc e.next_emergency_request_id }
  request ← lift (new_request now request_id escrow_id caller reason required)
  modify λ e. record e { emergency_requests = put request_id request e.emergency_requests }
  pure request_id

unfoldable pub request_emergency_release : ℤ → ℕ → String → String → Call EnergyEscrow ℕ
unfolding add_audit_entry emit_event
request_emergency_release now escrow_id reason caller = do
  guards now caller
  trade ← get_trade_or_throw escrow_id
  required ← gets (λ e. e.required_emergency_approvals)
  lift (validate_emergency_request trade caller reason required)
  clean ← lift (sanitize_string reason 1000)
  request_id ← open_request now escrow_id caller clean required
  add_audit_entry now "EMERGENCY_REQUESTED" caller
      (("requestId", id request_id) ∷ ("escrowId", id escrow_id) ∷ ("reason", text clean) ∷ [])
  emit_event now (emergency_release_requested request_id escrow_id caller clean required)
  pure request_id

-- What `approveEmergencyRelease` does first: its checks, and `request.approve`. The request after it.
unfoldable pub record_approval : ℕ → String → Call EnergyEscrow EmergencyRequest
record_approval request_id caller = do
  found ← gets (λ e. find request_id e.emergency_requests)
  request ← or_throw found "EnergyEscrow: Emergency request not found"
  trade ← get_trade_or_throw request.trade_id
  lift (validate_emergency_approval request caller trade)
  approved ← lift (approve caller request)
  modify λ e. record e { emergency_requests = put request_id approved e.emergency_requests }
  pure approved

unfoldable pub approve_emergency_release : ℤ → ℕ → String → Call EnergyEscrow Bool
unfolding add_audit_entry emit_event
approve_emergency_release now request_id caller = do
  guards now caller
  request ← record_approval request_id caller
  add_audit_entry now "EMERGENCY_APPROVED" caller
      (("requestId", id request_id) ∷ ("approver", text caller) ∷ [])
  emit_event now (
      emergency_approved request_id request.trade_id caller (length request.approvals)
        request.required_approvals)
  pure true

-- What `executeEmergencyRelease` does first: its checks, and `request.execute`. The request and its
-- trade.
unfoldable pub record_execution :
    ℤ → ℕ → String → String → Call EnergyEscrow (EmergencyRequest × EnergyTrade)
record_execution now request_id to caller = do
  found ← gets (λ e. find request_id e.emergency_requests)
  request ← or_throw found "EnergyEscrow: Emergency request not found"
  throw_if (not (can_execute request)) "EnergyEscrow: Insufficient approvals for emergency release"
  trade ← get_trade_or_throw request.trade_id
  lift (validate_addresses (to ∷ []))
  executed ← lift (execute now caller request)
  modify λ e. record e { emergency_requests = put request_id executed e.emergency_requests }
  pure (executed, trade)

unfoldable pub execute_emergency_release : ℤ → ℕ → String → String → Call EnergyEscrow Bool
unfolding add_audit_entry emit_event
execute_emergency_release now request_id to caller = do
  guards now caller
  both ← record_execution now request_id to caller
  update_status both.0.trade_id emergency_release
  release_tokens now both.0.trade_id to (whole both.1.currency_amount) caller none
  add_audit_entry now "EMERGENCY_EXECUTED" caller (
      ("requestId", id request_id)
      ∷ ("to", text to)
      ∷ ("amount", number both.1.currency_amount)
      ∷ [])
  emit_event now (emergency_executed request_id both.0.trade_id caller to both.1.currency_amount)
  pure true
