-- ===== src/Escrow/Tests.antt =====
-- A trade between three accounts, and the theorems at it.
use current_dao_contracts.Base.{
  inl, ◌≤◌, ℤ, pos, ◌≤ℤ◌, ◌≡◌, ◌≢◌, refl, String, Bool, true, false, Option, none, some, List, [],
  ◌∷◌, ◌++◌, arith, find, put, ok, throws, text_length, set, ◌+ℤ◌, ◌-ℤ◌, ◌*ℤ◌, show_number, add_all,
}
use current_dao_contracts.Escrow.Trade.{
  new_trade, validate_trade_data, new_milestone, with_status, new_request, approve, execute,
  EnergyTrade, EscrowStatus, EmergencyRequest, active, cancelled, completed, whole,
}
use current_dao_contracts.Escrow.Text.{sanitize_string, is_valid_address, trim}
use current_dao_contracts.Escrow.Checks.{
  validate_addresses, validate_unique_addresses, validate_amount, validate_timestamp,
  calculate_milestone_amounts, validate_emergency_request, validate_emergency_approval,
}
use current_dao_contracts.Escrow.Limiter.{check_operation}
use current_dao_contracts.Escrow.Admin.{update_required_emergency_approvals}
use current_dao_contracts.Escrow.State.{
  EnergyEscrow, Event, tokens_released, text, new, guards, get_trade_or_throw, update_status,
  release_tokens,
}
use current_dao_contracts.Escrow.Trading.{
  create_escrow, open_trade, create_milestones, deposit_tokens, refund_if, cancel_escrow,
  confirm_delivery,
}
use current_dao_contracts.Escrow.Disputes.{
  request_emergency_release, open_request, approve_emergency_release, record_approval,
  record_execution, execute_emergency_release,
}
use current_dao_contracts.Escrow.Methods.{
  Method, creates, deposits, cancels, requests, approves, executes, updates_approvals, after, start,
  step, from,
}
use current_dao_contracts.Escrow.Status.{over_is_final, Reach-IsFresh, status_moves_along, Later}
use current_dao_contracts.Escrow.Vouched.{count, Parties}
use current_dao_contracts.Escrow.Approvals.{executed_with_approvals, four_approvals_never}
use current_dao_contracts.Escrow.Window.{allowed, InWindow, window_bounded}
use current_dao_contracts.Escrow.Releases.{active_never_cancelled, delivery_releases_all}
use current_dao_contracts.Escrow.Refund.{HasRoom, refund_of, refund_repeats}

abbrev root : String
root = "0xaaaaaaaaaaaaaaaaaaaaaaaaaaaaaaaaaaaaaaaa"

abbrev ann : String
ann = "0x1111111111111111111111111111111111111111"

abbrev bob : String
bob = "0x2222222222222222222222222222222222222222"

abbrev med : String
med = "0x3333333333333333333333333333333333333333"

-- A new contract.
abbrev e0 : EnergyEscrow
e0 = record {
  admin = root;
  paused = false;
  penalty_percent = pos 10;
  auto_release_period = pos 172800000;
  required_emergency_approvals = pos 3;
  trades = [];
  milestones = [];
  disputes = [];
  emergency_requests = [];
  audit_trail =
      record {
        action = "CONTRACT_INITIALIZED";
        actor = root;
        details = ("admin", text root) ∷ [];
        timestamp = pos 1;
      }
      ∷ [];
  next_trade_id = 1;
  next_milestone_id = 1;
  next_dispute_id = 1;
  next_emergency_request_id = 1;
  entered = false;
  operations = [];
  emitted = [];
}

fresh_contract : new (pos 1) root ≡ ok e0
unfolding new is_valid_address
fresh_contract = refl

abbrev made : Method
made = creates ann bob med (pos 100) (pos 50) (pos 1000) 2

abbrev e1 : EnergyEscrow
e1 = after (pos 2) ann made e0

abbrev e2 : EnergyEscrow
e2 = after (pos 3) ann (deposits 1 (pos 100) (pos 50)) e1

abbrev trade : EscrowStatus → EnergyTrade
trade s = record {
  id = 1;
  buyer = ann;
  seller = bob;
  mediator = med;
  energy_amount = pos 50;
  price_per_kwh = record { num = pos 100; den = pos 50 };
  total_value = record { num = pos 5000; den = pos 50 };
  currency_amount = pos 100;
  created_at = pos 2;
  release_time = pos 1000;
  status = s;
  milestone_count = 2;
}

stored_active : find 1 e2.trades ≡ some (trade active)
unfolding after create_escrow deposit_tokens guards check_operation validate_addresses
    is_valid_address validate_unique_addresses add_all validate_amount validate_timestamp open_trade
    new_trade validate_trade_data calculate_milestone_amounts create_milestones new_milestone trim
    show_number put set update_status with_status get_trade_or_throw ◌+ℤ◌ ◌-ℤ◌ ◌*ℤ◌
stored_active = refl

abbrev e3 : EnergyEscrow
e3 = after (pos 4) bob (cancels 1 "no need") e1

stored_cancelled : find 1 e3.trades ≡ some (trade cancelled)
unfolding after create_escrow deposit_tokens guards check_operation validate_addresses
    is_valid_address validate_unique_addresses add_all validate_amount validate_timestamp open_trade
    new_trade validate_trade_data calculate_milestone_amounts create_milestones new_milestone trim
    show_number put set update_status with_status get_trade_or_throw ◌+ℤ◌ ◌-ℤ◌ ◌*ℤ◌ cancel_escrow
    sanitize_string text_length refund_if
stored_cancelled = refl

over_is_final_test :
    (t' : EnergyTrade) × (find 1 (after (pos 5) root (cancels 1 "again") e3).trades ≡ some t')
    × (t'.status ≡ cancelled)
over_is_final_test =
    over_is_final 1 (trade cancelled)
      (from (pos 1) root fresh_contract
        (step (pos 4) bob (cancels 1 "no need") (step (pos 2) ann made start)))
      (step (pos 5) root (cancels 1 "again") start) stored_cancelled refl

status_moves_along_example :
    (t' : EnergyTrade) × (find 1 (after (pos 4) ann (cancels 1 "late") e2).trades ≡ some t')
    × Later (trade active) t'
status_moves_along_example =
    status_moves_along 1 (trade active)
      (Reach-IsFresh (
        from (pos 1) root fresh_contract
          (step (pos 3) ann (deposits 1 (pos 100) (pos 50)) (step (pos 2) ann made start))))
      (step (pos 4) ann (cancels 1 "late") start) stored_active

active_never_cancelled_test :
    ((cancel_escrow (pos 4) 1 "late" ann e2).0 ≢ ok true)
    × ((cancel_escrow (pos 4) 1 "late" ann e2).1.trades ≡ e2.trades)
active_never_cancelled_test =
    active_never_cancelled (pos 4) 1 "late" ann e2 (trade active) true stored_active refl

cleaned : sanitize_string "late" 500 ≡ ok "late"
unfolding sanitize_string text_length
cleaned = refl

room : HasRoom ann 6 e2
unfolding after create_escrow deposit_tokens guards check_operation validate_addresses
    is_valid_address validate_unique_addresses add_all validate_amount validate_timestamp open_trade
    new_trade validate_trade_data calculate_milestone_amounts create_milestones new_milestone trim
    show_number put set update_status with_status get_trade_or_throw ◌+ℤ◌ ◌-ℤ◌ ◌*ℤ◌
room = (refl, refl, (refl, tt), omega arith)

valid : is_valid_address ann ≡ true
unfolding is_valid_address
valid = refl

refund_repeats_example :
    let refused = throws "TradeStructure: Invalid status transition from ACTIVE to CANCELLED" in
    let (r, f) = cancel_escrow (pos 4) 1 "late" ann e2 in
    let (r', f') = cancel_escrow (pos 5) 1 "late" ann f in
    (r ≡ refused)
    × (r' ≡ refused)
    × (f'.trades ≡ e2.trades)
    × (f'.emitted
        ≡ (e2.emitted ++ (refund_of (pos 4) 1 (trade active) ∷ []))
          ++ (refund_of (pos 5) 1 (trade active) ∷ []))
refund_repeats_example =
    refund_repeats (pos 4) (pos 5) 1 "late" "late" ann e2 (trade active) stored_active refl
      (inl refl) room valid (omega arith) cleaned

delivered : (confirm_delivery (pos 4) 1 ann e2).0 ≡ ok true
unfolding after create_escrow deposit_tokens guards check_operation validate_addresses
    is_valid_address validate_unique_addresses add_all validate_amount validate_timestamp open_trade
    new_trade validate_trade_data calculate_milestone_amounts create_milestones new_milestone trim
    show_number put set update_status with_status get_trade_or_throw ◌+ℤ◌ ◌-ℤ◌ ◌*ℤ◌ confirm_delivery
    release_tokens
delivered = refl

delivery_releases_all_example :
    let f = (confirm_delivery (pos 4) 1 ann e2).1 in
    (f.trades ≡ put 1 (trade completed) e2.trades)
    × (ann ≡ ann)
    × (active ≡ active)
    × ((events : List Event) × (f.emitted
          ≡ (e2.emitted ++ events)
            ++ (record { timestamp = pos 4; content = tokens_released 1 bob (whole (pos 100)) none }
                ∷ [])))
delivery_releases_all_example =
    delivery_releases_all (pos 4) 1 ann e2 (trade active) true stored_active delivered

abbrev request : Bool → Option ℤ → Option String → List String → ℤ → EmergencyRequest
request done at by approvals required = record {
  id = 1;
  trade_id = 1;
  initiator = ann;
  reason = "stuck";
  approvals = approvals;
  required_approvals = required;
  created_at = pos 4;
  executed = done;
  executed_at = at;
  executed_by = by;
}

abbrev e4 : EnergyEscrow
e4 = after (pos 7) med (approves 1) (
    after (pos 6) bob (approves 1)
      (after (pos 5) ann (approves 1) (after (pos 4) ann (requests 1 "stuck") e2)))

abbrev e5 : EnergyEscrow
e5 = after (pos 8) med (executes 1 bob) e4

abbrev done_request : EmergencyRequest
done_request = request true (some (pos 8)) (some med) (ann ∷ bob ∷ med ∷ []) (pos 3)

stored_request : find 1 e5.emergency_requests ≡ some done_request
unfolding after create_escrow deposit_tokens guards check_operation validate_addresses
    is_valid_address validate_unique_addresses add_all validate_amount validate_timestamp open_trade
    new_trade validate_trade_data calculate_milestone_amounts create_milestones new_milestone trim
    show_number put set update_status with_status get_trade_or_throw ◌+ℤ◌ ◌-ℤ◌ ◌*ℤ◌
    request_emergency_release open_request new_request validate_emergency_request text_length
    sanitize_string approve_emergency_release record_approval validate_emergency_approval approve
    execute_emergency_release record_execution execute release_tokens
stored_request = refl

executed_with_approvals_example :
    (pos 3 ≤ℤ pos 3)
    × ((who : String) → count who (ann ∷ bob ∷ med ∷ []) ≤ 1)
    × Parties e5.trades 1 (ann ∷ bob ∷ med ∷ [])
executed_with_approvals_example =
    executed_with_approvals 1 done_request
      (from (pos 1) root fresh_contract (
        step (pos 8) med (executes 1 bob) (
          step (pos 7) med (approves 1) (
            step (pos 6) bob (approves 1) (
              step (pos 5) ann (approves 1) (
                step (pos 4) ann (requests 1 "stuck") (
                  step (pos 3) ann (deposits 1 (pos 100) (pos 50))
                    (step (pos 2) ann made start))))))))
      stored_request refl

abbrev e6 : EnergyEscrow
e6 = after (pos 4) ann (requests 1 "stuck") (after (pos 3) root (updates_approvals (pos 4)) e1)

stored_four : find 1 e6.emergency_requests ≡ some (request false none none [] (pos 4))
unfolding after create_escrow deposit_tokens guards check_operation validate_addresses
    is_valid_address validate_unique_addresses add_all validate_amount validate_timestamp open_trade
    new_trade validate_trade_data calculate_milestone_amounts create_milestones new_milestone trim
    show_number put set update_status with_status get_trade_or_throw ◌+ℤ◌ ◌-ℤ◌ ◌*ℤ◌
    request_emergency_release open_request new_request validate_emergency_request text_length
    sanitize_string approve_emergency_release record_approval validate_emergency_approval approve
    execute_emergency_release record_execution execute release_tokens
    update_required_emergency_approvals
stored_four = refl

four_approvals_never_test :
    (false ≡ false) × ((execute_emergency_release (pos 5) 1 bob med e6).0 ≢ ok true)
four_approvals_never_test =
    four_approvals_never (pos 5) 1 bob med (request false none none [] (pos 4)) true
      (from (pos 1) root fresh_contract (
        step (pos 4) ann (requests 1 "stuck")
          (step (pos 3) root (updates_approvals (pos 4)) (step (pos 2) ann made start))))
      stored_four (omega arith)

abbrev checks : List (ℤ × String)
checks = (pos 0, ann) ∷ (pos 5, bob) ∷ (pos 3, ann) ∷ (pos 9, ann) ∷ []

checks_inside : InWindow (pos 0) (pos 10) checks
unfolding ◌+ℤ◌
checks_inside = omega arith

window_bounded_example : allowed 2 (pos 10) ann checks [] ≤ 2
window_bounded_example = window_bounded 2 (pos 0) (pos 10) ann checks [] tt checks_inside

-- The third operation of the actor is refused.
allowed_test : allowed 2 (pos 10) ann checks [] ≡ 2
unfolding allowed check_operation set ◌-ℤ◌
allowed_test = refl
