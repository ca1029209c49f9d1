-- ===== src/Escrow/Admin.antt =====
-- The methods of the administrator of EnergyEscrow, the automatic release and the reads.
use current_dao_contracts.Base.{
  ℕ, ◌+◌, length, eqb, ℤ, pos, ltb_ℤ, String, Bool, true, false, ◌&&◌, ◌||◌, none, List, [], ◌∷◌,
  values, Call, ok, pure, gets, throw_if, modify, lift, ◌>>=◌, ◌>>◌,
}
use current_dao_contracts.Escrow.Trade.{whole, EnergyTrade, is_active, completed}
use current_dao_contracts.Escrow.Checks.{
  validate_addresses, validate_percent, is_time_expired, open_disputes,
}
use current_dao_contracts.Escrow.State.{
  text, number, EnergyEscrow, auto_release, add_audit_entry, emit_event, get_trade_or_throw,
  update_status, release_tokens, only_admin,
}

unfoldable pub update_admin : ℤ → String → String → Call EnergyEscrow Bool
unfolding only_admin add_audit_entry
update_admin now admin caller = do
  only_admin caller
  lift (validate_addresses (admin ∷ []))
  old ← gets (λ e. e.admin)
  modify λ e. record e { admin = admin }
  add_audit_entry now "ADMIN_UPDATED" caller
      (("oldAdmin", text old) ∷ ("newAdmin", text admin) ∷ [])
  pure true

unfoldable pub pause : ℤ → String → Call EnergyEscrow Bool
unfolding only_admin add_audit_entry
pause now caller = do
  only_admin caller
  modify λ e. record e { paused = true }
  add_audit_entry now "CONTRACT_PAUSED" caller []
  pure true

unfoldable pub unpause : ℤ → String → Call EnergyEscrow Bool
unfolding only_admin add_audit_entry
unpause now caller = do
  only_admin caller
  modify λ e. record e { paused = false }
  add_audit_entry now "CONTRACT_UNPAUSED" caller []
  pure true

unfoldable pub update_penalty_percent : ℤ → ℤ → String → Call EnergyEscrow Bool
unfolding only_admin add_audit_entry
update_penalty_percent now new_percent caller = do
  only_admin caller
  lift (validate_percent new_percent "penalty percent")
  throw_if (ltb_ℤ (pos 50) new_percent) "EnergyEscrow: Penalty percent cannot exceed 50%"
  old ← gets (λ e. e.penalty_percent)
  modify λ e. record e { penalty_percent = new_percent }
  add_audit_entry now "PENALTY_PERCENT_UPDATED" caller
      (("oldPercent", number old) ∷ ("newPercent", number new_percent) ∷ [])
  pure true

-- From an hour to thirty days.
unfoldable pub update_auto_release_period : ℤ → ℤ → String → Call EnergyEscrow Bool
unfolding only_admin add_audit_entry
update_auto_release_period now new_period caller = do
  only_admin caller
  throw_if (ltb_ℤ new_period (pos 3600000) || ltb_ℤ (pos 2592000000) new_period)
      "EnergyEscrow: Invalid auto-release period"
  old ← gets (λ e. e.auto_release_period)
  modify λ e. record e { auto_release_period = new_period }
  add_audit_entry now "AUTO_RELEASE_PERIOD_UPDATED" caller
      (("oldPeriod", number old) ∷ ("newPeriod", number new_period) ∷ [])
  pure true

unfoldable pub update_required_emergency_approvals : ℤ → ℤ → String → Call EnergyEscrow Bool
unfolding only_admin add_audit_entry
update_required_emergency_approvals now new_count caller = do
  only_admin caller
  throw_if (ltb_ℤ new_count (pos 2) || ltb_ℤ (pos 10) new_count)
      "EnergyEscrow: Invalid emergency approval count"
  old ← gets (λ e. e.required_emergency_approvals)
  modify λ e. record e { required_emergency_approvals = new_count }
  add_audit_entry now "EMERGENCY_APPROVALS_UPDATED" caller
      (("oldCount", number old) ∷ ("newCount", number new_count) ∷ [])
  pure true

-- `isTimeExpired` of the contract.
unfoldable pub is_trade_expired : ℤ → ℕ → Call EnergyEscrow Bool
is_trade_expired now escrow_id = do
  trade ← get_trade_or_throw escrow_id
  lift (is_time_expired now trade.release_time)

-- `trade.status === ACTIVE && this.isTimeExpired(trade.id)`
unfoldable pub is_due : ℤ → EnergyTrade → Call EnergyEscrow Bool
unfolding is_trade_expired
is_due now trade e = elim (is_active trade.status) [
  | true ↦ is_trade_expired now trade.id e
  | false ↦ (ok false, e)
]

-- The release of one trade; how many were released.
unfoldable pub release_if : Bool → ℤ → EnergyTrade → Call EnergyEscrow ℕ
unfolding emit_event
release_if true now trade = do
  admin ← gets (λ e. e.admin)
  release_tokens now trade.id trade.seller (whole trade.currency_amount) admin none
  update_status trade.id completed
  emit_event now
      (auto_release trade.id "Time-based auto-release" trade.seller trade.currency_amount)
  pure 1
release_if false now trade = pure 0

-- The loop over the trades, which are left as they are until it comes to them.
unfoldable pub process_each : ℤ → List EnergyTrade → ℕ → Call EnergyEscrow ℕ
process_each now [] processed = pure processed
process_each now (trade ∷ trades) processed = do
  due ← is_due now trade
  open_ones ← gets (λ e. open_disputes trade.id (values e.disputes))
  released ← release_if (due && eqb (length open_ones) 0) now trade
  process_each now trades (processed + released)

unfoldable pub process_auto_releases : ℤ → Call EnergyEscrow ℕ
process_auto_releases now = do trades ← gets (λ e. values e.trades); process_each now trades 0
