-- ===== src/Escrow/Methods.antt =====
-- The calls of EnergyEscrow that write.
use current_dao_contracts.Base.{ℕ, ℤ, String, Option, List, ok, ◌≡◌}
use current_dao_contracts.Escrow.Trade.{Amount, DisputeResolution}
use current_dao_contracts.Escrow.State.{EnergyEscrow, new, release_tokens}
use current_dao_contracts.Escrow.Trading.{
  create_escrow, deposit_tokens, confirm_delivery, confirm_milestone, cancel_escrow,
}
use current_dao_contracts.Escrow.Disputes.{
  create_dispute, resolve_dispute, request_emergency_release, approve_emergency_release,
  execute_emergency_release,
}
use current_dao_contracts.Escrow.Admin.{
  update_admin, pause, unpause, update_penalty_percent, update_auto_release_period,
  update_required_emergency_approvals, process_auto_releases,
}

-- A call that writes, less its clock and its caller.
pub data Method : Type 0 where
  creates : String → String → String → ℤ → ℤ → ℤ → ℕ → Method
  deposits : ℕ → ℤ → ℤ → Method
  confirms : ℕ → Method
  confirms_milestone : ℕ → ℕ → Method
  releases : ℕ → String → Amount → Option ℕ → Method
  cancels : ℕ → String → Method
  disputes : ℕ → String → String → List String → Method
  resolves : ℕ → DisputeResolution → Method
  requests : ℕ → String → Method
  approves : ℕ → Method
  executes : ℕ → String → Method
  updates_admin : String → Method
  pauses unpauses : Method
  updates_penalty updates_period updates_approvals : ℤ → Method
  processes : Method

-- The contract after the call, whether it returned or threw.
unfoldable pub after : ℤ → String → Method → EnergyEscrow → EnergyEscrow
after now caller (creates b s m amount watt time count) e =
    (create_escrow now b s m amount watt time count caller e).1
after now caller (deposits id amount watt) e = (deposit_tokens now id amount watt caller e).1
after now caller (confirms id) e = (confirm_delivery now id caller e).1
after now caller (confirms_milestone id m) e = (confirm_milestone now id m caller e).1
after now caller (releases id to amount m) e = (release_tokens now id to amount caller m e).1
after now caller (cancels id reason) e = (cancel_escrow now id reason caller e).1
after now caller (disputes id respondent reason evidence) e =
    (create_dispute now id respondent reason evidence caller e).1
after now caller (resolves id r) e = (resolve_dispute now id r caller e).1
after now caller (requests id reason) e = (request_emergency_release now id reason caller e).1
after now caller (approves id) e = (approve_emergency_release now id caller e).1
after now caller (executes id to) e = (execute_emergency_release now id to caller e).1
after now caller (updates_admin admin) e = (update_admin now admin caller e).1
after now caller pauses e = (pause now caller e).1
after now caller unpauses e = (unpause now caller e).1
after now caller (updates_penalty percent) e = (update_penalty_percent now percent caller e).1
after now caller (updates_period period) e = (update_auto_release_period now period caller e).1
after now caller (updates_approvals count) e =
    (update_required_emergency_approvals now count caller e).1
after now caller processes e = (process_auto_releases now e).1

-- The states that any calls lead to from `e`.
pub data Runs (e : EnergyEscrow) : EnergyEscrow → Type 0 where
  start : Runs e e
  step :
      {f : EnergyEscrow}
      → (now : ℤ) (caller : String) (m : Method) → Runs e f
      → Runs e (after now caller m f)

-- The states that any calls lead to from a new contract.
pub data Reach : EnergyEscrow → Type 0 where
  from :
      {e f : EnergyEscrow} → (now : ℤ) (admin : String) → new now admin ≡ ok e → Runs e f → Reach f
