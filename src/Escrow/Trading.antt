-- ===== src/Escrow/Trading.antt =====
-- The methods of EnergyEscrow by which a trade is made, paid in, delivered and cancelled.
use current_dao_contracts.Base.{
  ℕ, zero, ⊤, suc, ltb, eqb, ℤ, pos, String, ◌==◌, concat, show_number, Bool, true, false, not,
  ◌&&◌, ◌||◌, none, some, List, [], ◌∷◌, ◌++◌, Table, find, put, Call, pure, gets, or_throw,
  throw_if, modify, lift, ◌>>=◌, ◌>>◌, if◌then◌else◌,
}
use current_dao_contracts.Escrow.Text.{sanitize_string}
use current_dao_contracts.Escrow.Trade.{
  Amount, whole, EnergyTrade, TradeMilestone, new_trade, new_milestone, complete, as_completed,
  is_pending, is_active, is_over, active, completed, cancelled,
}
use current_dao_contracts.Escrow.Checks.{
  validate_addresses, validate_unique_addresses, validate_amount, validate_timestamp,
  calculate_milestone_amounts, validate_milestone_completion,
}
use current_dao_contracts.Escrow.State.{
  text, id, number, Event, EnergyEscrow, escrow_created, tokens_deposited, milestone_completed,
  escrow_cancelled, add_audit_entry, emit_event, guards, get_trade_or_throw, get_trade_milestones,
  update_status, release_tokens,
}

-- The loop of `createEscrow`, from the milestone of number `i` on, `count` of them.
unfoldable pub create_milestones : ℕ → ℕ → ℕ → Amount → Amount → Call EnergyEscrow ⊤
create_milestones zero i trade_id energy currency = pure tt
create_milestones (suc count) i trade_id energy currency = do
  key ← gets (λ e. e.next_milestone_id)
  modify λ e. record e { next_milestone_id = suc e.next_milestone_id }
  milestone ← lift (
      new_milestone key trade_id energy currency
        (concat ("Milestone " ∷ show_number (pos (suc i)) ∷ [])))
  modify λ e. record e { milestones = put key milestone e.milestones }
  create_milestones count (suc i) trade_id energy currency

-- The id and the object of a new trade.
unfoldable pub open_trade : ℤ → String → String → String → ℤ → ℤ → ℤ → ℕ → Call EnergyEscrow ℕ
open_trade now buyer seller mediator amt watt_token_amount release_time milestone_count = do
  trade_id ← gets (λ e. e.next_trade_id)
  modify λ e. record e { next_trade_id = suc e.next_trade_id }
  trade ← lift (
      new_trade now trade_id buyer seller mediator watt_token_amount
        (record { num = amt; den = watt_token_amount }) amt release_time milestone_count)
  modify λ e. record e { trades = put trade_id trade e.trades }
  pure trade_id

unfoldable pub create_escrow :
    ℤ → String → String → String → ℤ → ℤ → ℤ → ℕ → String → Call EnergyEscrow ℕ
unfolding add_audit_entry emit_event
create_escrow now buyer seller mediator amt watt_token_amount release_time milestone_count caller =
    do
      guards now caller
      lift (validate_addresses (buyer ∷ seller ∷ mediator ∷ caller ∷ []))
      lift (validate_unique_addresses (buyer ∷ seller ∷ mediator ∷ []))
      lift (validate_amount (whole amt) "currency amount")
      lift (validate_amount (whole watt_token_amount) "WATT token amount")
      lift (validate_timestamp now release_time)
      throw_if (ltb milestone_count 1 || ltb 100 milestone_count)
          "EnergyEscrow: Invalid milestone count"
      trade_id ←
          open_trade now buyer seller mediator amt watt_token_amount release_time milestone_count
      amounts ← lift (calculate_milestone_amounts amt watt_token_amount milestone_count)
      create_milestones milestone_count 0 trade_id amounts.1 amounts.0
      add_audit_entry now "ESCROW_CREATED" caller (
          ("tradeId", id trade_id)
          ∷ ("buyer", text buyer)
          ∷ ("seller", text seller)
          ∷ ("mediator", text mediator)
          ∷ ("amount", number amt)
          ∷ ("wattTokenAmount", number watt_token_amount)
          ∷ ("releaseTime", number release_time)
          ∷ ("milestoneCount", id milestone_count)
          ∷ [])
      emit_event now (
          escrow_created trade_id buyer seller mediator amt watt_token_amount release_time
            milestone_count)
      pure trade_id

unfoldable pub deposit_tokens : ℤ → ℕ → ℤ → ℤ → String → Call EnergyEscrow Bool
unfolding add_audit_entry emit_event
deposit_tokens now escrow_id amt watt_token_amount caller = do
  guards now caller
  trade ← get_trade_or_throw escrow_id
  throw_if (not (caller == trade.buyer)) "EnergyEscrow: Only buyer can deposit tokens"
  throw_if (not (is_pending trade.status)) "EnergyEscrow: Trade must be in pending status"
  lift (validate_amount (whole amt) "deposit amount")
  lift (validate_amount (whole watt_token_amount) "WATT deposit amount")
  update_status escrow_id active
  add_audit_entry now "TOKENS_DEPOSITED" caller (
      ("escrowId", id escrow_id)
      ∷ ("amount", number amt)
      ∷ ("wattTokenAmount", number watt_token_amount)
      ∷ [])
  emit_event now (tokens_deposited escrow_id caller amt watt_token_amount)
  pure true

-- The loop of `confirmDelivery` over the milestones of a trade, on the table and on the events.
unfoldable pub completed_all : ℤ → ℕ → Table TradeMilestone → Table TradeMilestone
completed_all now escrow_id [] = []
completed_all now escrow_id ((k, m) ∷ milestones) =
    let rest = completed_all now escrow_id milestones in
    if eqb m.trade_id escrow_id && not m.completed
    then (k, as_completed now m) ∷ rest
    else (k, m) ∷ rest

unfoldable pub completion_events : ℤ → ℕ → String → List TradeMilestone → List Event
completion_events now escrow_id caller [] = []
completion_events now escrow_id caller (m ∷ milestones) =
    let rest = completion_events now escrow_id caller milestones in
    if not m.completed
    then record { timestamp = now; content = milestone_completed escrow_id m.id caller } ∷ rest
    else rest

unfoldable pub confirm_delivery : ℤ → ℕ → String → Call EnergyEscrow Bool
unfolding add_audit_entry emit_event
confirm_delivery now escrow_id caller = do
  guards now caller
  trade ← get_trade_or_throw escrow_id
  throw_if (not (caller == trade.buyer)) "EnergyEscrow: Only buyer can confirm delivery"
  throw_if (not (is_active trade.status)) "EnergyEscrow: Trade must be active"
  modify λ e. record e {
    milestones = completed_all now escrow_id e.milestones;
    emitted =
        e.emitted ++ completion_events now escrow_id caller (get_trade_milestones escrow_id e);
  }
  release_tokens now escrow_id trade.seller (whole trade.currency_amount) caller none
  update_status escrow_id completed
  add_audit_entry now "DELIVERY_CONFIRMED" caller (("escrowId", id escrow_id) ∷ [])
  pure true

-- `tradeMilestones.every(m => m.completed)`
abbrev pub all_completed : List TradeMilestone → Bool
all_completed [] = true
all_completed (m ∷ milestones) = m.completed && all_completed milestones

unfoldable pub complete_if : Bool → ℕ → Call EnergyEscrow ⊤
complete_if true escrow_id = update_status escrow_id completed
complete_if false escrow_id = pure tt

unfoldable pub confirm_milestone : ℤ → ℕ → ℕ → String → Call EnergyEscrow Bool
unfolding add_audit_entry emit_event
confirm_milestone now escrow_id milestone_id caller = do
  guards now caller
  trade ← get_trade_or_throw escrow_id
  throw_if (not (caller == trade.buyer)) "EnergyEscrow: Only buyer can confirm milestones"
  throw_if (not (is_active trade.status)) "EnergyEscrow: Trade must be active"
  found ← gets (λ e. find milestone_id e.milestones)
  milestone ← or_throw found "EnergyEscrow: Milestone not found"
  throw_if (not (eqb milestone.trade_id escrow_id)) "EnergyEscrow: Milestone not found"
  lift (validate_milestone_completion trade milestone)
  done ← lift (complete now milestone)
  modify λ e. record e { milestones = put milestone_id done e.milestones }
  release_tokens now escrow_id trade.seller milestone.currency_amount caller (some milestone_id)
  every ← gets (λ e. all_completed (get_trade_milestones escrow_id e))
  complete_if every escrow_id
  add_audit_entry now "MILESTONE_CONFIRMED" caller
      (("escrowId", id escrow_id) ∷ ("milestoneId", id milestone_id) ∷ [])
  emit_event now (milestone_completed escrow_id milestone_id caller)
  pure true

-- The refund of `cancelEscrow`, and its amount.
unfoldable pub refund_if : Bool → ℤ → ℕ → EnergyTrade → String → Call EnergyEscrow ℤ
refund_if true now escrow_id trade caller = do
  release_tokens now escrow_id trade.buyer (whole trade.currency_amount) caller none
  pure trade.currency_amount
refund_if false now escrow_id trade caller = pure (pos 0)

unfoldable pub cancel_escrow : ℤ → ℕ → String → String → Call EnergyEscrow Bool
unfolding add_audit_entry emit_event
cancel_escrow now escrow_id reason caller = do
  guards now caller
  trade ← get_trade_or_throw escrow_id
  throw_if
      (← gets (λ e.
        not (caller == trade.buyer) && not (caller == trade.seller) && not (caller == e.admin)))
      "EnergyEscrow: Unauthorized to cancel escrow"
  throw_if (is_over trade.status) "EnergyEscrow: Trade already completed or cancelled"
  clean ← lift (sanitize_string reason 500)
  refund_amount ← refund_if (is_active trade.status) now escrow_id trade caller
  update_status escrow_id cancelled
  add_audit_entry now "ESCROW_CANCELLED" caller (
      ("escrowId", id escrow_id)
      ∷ ("reason", text clean)
      ∷ ("refundAmount", number refund_amount)
      ∷ [])
  emit_event now (escrow_cancelled escrow_id caller clean refund_amount)
  pure true
