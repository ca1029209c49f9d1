-- ===== src/Escrow/Steps.antt =====
-- A property of the state that the writes of EnergyEscrow keep holds after every call. The writes that
-- may change a property are the arguments; each method is a sequence of them.
use current_dao_contracts.Base.{
  ℕ, zero, suc, ◌≡◌, arith, Table, ◌++◌, ℤ, String, Bool, true, false, Option, List, [], ◌∷◌,
  modify, Dict,
}
use current_dao_contracts.Base.Keeps.{Keeps, Keeps-modify, keeps_rules}
use mathlib.Core.Path.{subst}
use current_dao_contracts.Escrow.Methods.{
  Method, creates, deposits, confirms, confirms_milestone, releases, cancels, disputes, resolves,
  requests, approves, executes, updates_admin, pauses, unpauses, updates_penalty, updates_period,
  updates_approvals, processes, after, Runs, start, step,
}
use current_dao_contracts.Escrow.Trade.{
  Amount, completed, EscrowStatus, EnergyTrade, TradeMilestone, DisputeResolution, DisputeEvidence,
}
use current_dao_contracts.Escrow.State.{
  Detail, Event, EventData, EnergyEscrow, add_audit_entry, emit_event, guards, when_not_paused,
  check_rate_limit, non_reentrant, get_trade_or_throw, get_trade_milestones, update_status,
  release_tokens, only_admin,
}
use current_dao_contracts.Escrow.Trading.{
  create_milestones, completed_all, completion_events, open_trade, create_escrow, deposit_tokens,
  confirm_delivery, complete_if, confirm_milestone, refund_if, cancel_escrow,
}
use current_dao_contracts.Escrow.Disputes.{
  open_dispute, create_dispute, close_dispute, record_approval, record_execution, penalty_if,
  award_if, resolve_dispute, open_request, request_emergency_release, approve_emergency_release,
  execute_emergency_release,
}
use current_dao_contracts.Escrow.Admin.{
  update_admin, pause, unpause, update_penalty_percent, update_auto_release_period,
  update_required_emergency_approvals, is_trade_expired, is_due, release_if, process_each,
  process_auto_releases,
}

-- The writes keep `P`.
pub record IsKept (P : EnergyEscrow → Type 0) : Type 0 where
  pub limited :
      (s : EnergyEscrow) (operations : Dict (List ℤ)) (entered : Bool)
      → P s
      → P (record s { operations = operations; entered = entered })
  pub audited :
      (now : ℤ) (action actor : String) (details : Dict Detail)
      → Keeps P (add_audit_entry now action actor details)
  pub moved : (id : ℕ) (next : EscrowStatus) → Keeps P (update_status id next)
  pub opened :
      (now : ℤ) (b s m : String) (amount watt time : ℤ) (count : ℕ)
      → Keeps P (open_trade now b s m amount watt time count)
  pub disputed :
      (now : ℤ) (id : ℕ) (caller respondent reason : String) (evidence : List DisputeEvidence)
      → Keeps P (open_dispute now id caller respondent reason evidence)
  pub closed :
      (now : ℤ) (id : ℕ) (r : DisputeResolution) (caller : String)
      → Keeps P (close_dispute now id r caller)
  pub requested :
      (now : ℤ) (id : ℕ) (caller reason : String) (required : ℤ)
      → Keeps P (open_request now id caller reason required)
  pub approved : (id : ℕ) (caller : String) → Keeps P (record_approval id caller)
  pub executed :
      (now : ℤ) (id : ℕ) (to caller : String) → Keeps P (record_execution now id to caller)
  pub delivered :
      (s : EnergyEscrow) (milestones : Table TradeMilestone) (next : ℕ) (emitted : List Event)
      → P s
      → P (record s { milestones = milestones; next_milestone_id = next; emitted = emitted })
  pub settings :
      (s : EnergyEscrow) (admin : String) (paused : Bool) (penalty period approvals : ℤ)
      → P s
      → P (record s {
        admin = admin;
        paused = paused;
        penalty_percent = penalty;
        auto_release_period = period;
        required_emergency_approvals = approvals;
      })

module _ {P : EnergyEscrow → Type 0} (kept : IsKept P) where
  limits_keep :
      (f : EnergyEscrow → Dict (List ℤ)) → Keeps P (modify λ e. record e { operations = f e })
  limits_keep f = Keeps-modify _ (λ s h. kept.limited s (f s) s.entered h)

  entered_keeps : (b : Bool) → Keeps P (modify λ e. record e { entered = b })
  entered_keeps b = Keeps-modify _ (λ s h. kept.limited s s.operations b h)

  guarded : (now : ℤ) (caller : String) → Keeps P (guards now caller)
  unfolding guards when_not_paused check_rate_limit non_reentrant
  guarded now caller = search (keeps_rules, limits_keep, entered_keeps) depth 60

  emitted : (now : ℤ) (content : EventData) → Keeps P (emit_event now content)
  unfolding emit_event
  emitted now content =
      Keeps-modify _ (λ s h. kept.delivered s s.milestones s.next_milestone_id _ h)

  trade_or_throw : (id : ℕ) → Keeps P (get_trade_or_throw id)
  unfolding get_trade_or_throw
  trade_or_throw id = search keeps_rules depth 60

  milestones_keep :
      (f : EnergyEscrow → Table TradeMilestone)
      → Keeps P (modify λ e. record e { milestones = f e })
  milestones_keep f = Keeps-modify _ (λ s h. kept.delivered s (f s) s.next_milestone_id s.emitted h)

  next_keeps : Keeps P (modify λ e. record e { next_milestone_id = suc e.next_milestone_id })
  next_keeps =
      Keeps-modify _ (λ s h. kept.delivered s s.milestones (suc s.next_milestone_id) s.emitted h)

  all_keep :
      (now : ℤ) (id : ℕ) (caller : String)
      → Keeps P (
          modify λ e. record e {
            milestones = completed_all now id e.milestones;
            emitted = e.emitted ++ completion_events now id caller (get_trade_milestones id e);
          })
  all_keep now id caller = Keeps-modify _ (λ s h. kept.delivered s _ s.next_milestone_id _ h)

  create_milestones_keeps :
      (count i id : ℕ) (energy currency : Amount)
      → Keeps P (create_milestones count i id energy currency)
  unfolding create_milestones
  create_milestones_keeps zero i id energy currency = search keeps_rules
  create_milestones_keeps (suc count) i id energy currency =
      search (keeps_rules, next_keeps, milestones_keep, create_milestones_keeps count) depth 60

  create_keeps :
      (now : ℤ) (b s m : String) (amount watt time : ℤ) (count : ℕ) (caller : String)
      → Keeps P (create_escrow now b s m amount watt time count caller)
  unfolding create_escrow
  create_keeps now b s m amount watt time count caller =
      search (keeps_rules, guarded, kept.opened, create_milestones_keeps, kept.audited, emitted)
        depth 60

  deposit_keeps :
      (now : ℤ) (id : ℕ) (amount watt : ℤ) (caller : String)
      → Keeps P (deposit_tokens now id amount watt caller)
  unfolding deposit_tokens
  deposit_keeps now id amount watt caller =
      search (keeps_rules, guarded, trade_or_throw, kept.moved, kept.audited, emitted) depth 60

  release_keeps :
      (now : ℤ) (id : ℕ) (to : String) (amount : Amount) (caller : String) (m : Option ℕ)
      → Keeps P (release_tokens now id to amount caller m)
  unfolding release_tokens
  release_keeps now id to amount caller m =
      search (keeps_rules, guarded, trade_or_throw, kept.audited, emitted) depth 60

  delivery_keeps : (now : ℤ) (id : ℕ) (caller : String) → Keeps P (confirm_delivery now id caller)
  unfolding confirm_delivery
  delivery_keeps now id caller =
      search
        (keeps_rules, guarded, trade_or_throw, all_keep, release_keeps, kept.moved, kept.audited)
        depth 60

  complete_if_keeps : (b : Bool) (id : ℕ) → Keeps P (complete_if b id)
  unfolding complete_if
  complete_if_keeps true id = kept.moved id completed
  complete_if_keeps false id = search keeps_rules

  milestone_keeps :
      (now : ℤ) (id m : ℕ) (caller : String) → Keeps P (confirm_milestone now id m caller)
  unfolding confirm_milestone
  milestone_keeps now id m caller =
      search
        (
          keeps_rules, guarded, trade_or_throw, milestones_keep, release_keeps, complete_if_keeps,
          kept.audited, emitted,
        )
        depth 60

  refund_if_keeps :
      (b : Bool) (now : ℤ) (id : ℕ) (t : EnergyTrade) (caller : String)
      → Keeps P (refund_if b now id t caller)
  unfolding refund_if
  refund_if_keeps true now id t caller = search (keeps_rules, release_keeps) depth 60
  refund_if_keeps false now id t caller = search keeps_rules

  cancel_keeps :
      (now : ℤ) (id : ℕ) (reason caller : String) → Keeps P (cancel_escrow now id reason caller)
  unfolding cancel_escrow
  cancel_keeps now id reason caller =
      search
        (keeps_rules, guarded, trade_or_throw, refund_if_keeps, kept.moved, kept.audited, emitted)
        depth 60

  dispute_keeps :
      (now : ℤ) (id : ℕ) (respondent reason : String) (evidence : List String) (caller : String)
      → Keeps P (create_dispute now id respondent reason evidence caller)
  unfolding create_dispute
  dispute_keeps now id respondent reason evidence caller =
      search
        (keeps_rules, guarded, trade_or_throw, kept.disputed, kept.moved, kept.audited, emitted)
        depth 60

  penalty_if_keeps :
      (b : Bool) (now : ℤ) (id : ℕ) (t : EnergyTrade) (r : DisputeResolution)
      → Keeps P (penalty_if b now id t r)
  unfolding penalty_if
  penalty_if_keeps true now id t r = search (keeps_rules, emitted) depth 60
  penalty_if_keeps false now id t r = search keeps_rules

  award_if_keeps :
      (b : Bool) (now : ℤ) (id : ℕ) (t : EnergyTrade) (r : DisputeResolution) (caller : String)
      → Keeps P (award_if b now id t r caller)
  unfolding award_if
  award_if_keeps true now id t r caller = search (keeps_rules, release_keeps) depth 60
  award_if_keeps false now id t r caller = search keeps_rules

  resolve_keeps :
      (now : ℤ) (id : ℕ) (r : DisputeResolution) (caller : String)
      → Keeps P (resolve_dispute now id r caller)
  unfolding resolve_dispute
  resolve_keeps now id r caller =
      search
        (
          keeps_rules, guarded, kept.closed, penalty_if_keeps, award_if_keeps, kept.moved,
          kept.audited, emitted,
        )
        depth 60

  request_keeps :
      (now : ℤ) (id : ℕ) (reason caller : String)
      → Keeps P (request_emergency_release now id reason caller)
  unfolding request_emergency_release
  request_keeps now id reason caller =
      search (keeps_rules, guarded, trade_or_throw, kept.requested, kept.audited, emitted) depth 60

  approve_keeps :
      (now : ℤ) (id : ℕ) (caller : String) → Keeps P (approve_emergency_release now id caller)
  unfolding approve_emergency_release
  approve_keeps now id caller =
      search (keeps_rules, guarded, kept.approved, kept.audited, emitted) depth 60

  execute_keeps :
      (now : ℤ) (id : ℕ) (to caller : String) → Keeps P (execute_emergency_release now id to caller)
  unfolding execute_emergency_release
  execute_keeps now id to caller =
      search (keeps_rules, guarded, kept.executed, kept.moved, release_keeps, kept.audited, emitted)
        depth 60

  admin_keeps : (caller : String) → Keeps P (only_admin caller)
  unfolding only_admin
  admin_keeps caller = search keeps_rules depth 60

  update_admin_keeps : (now : ℤ) (admin caller : String) → Keeps P (update_admin now admin caller)
  unfolding update_admin
  update_admin_keeps now admin caller =
      let set : (admin : String) → Keeps P (modify λ e. record e { admin = admin }) = λ admin.
        Keeps-modify _ (λ s h.
          kept.settings s admin s.paused s.penalty_percent s.auto_release_period
            s.required_emergency_approvals h) in
      search (keeps_rules, admin_keeps, set, kept.audited) depth 60

  pause_keeps :
      (now : ℤ) (caller : String) → Keeps P (pause now caller) × Keeps P (unpause now caller)
  unfolding pause unpause
  pause_keeps now caller =
      let set : (b : Bool) → Keeps P (modify λ e. record e { paused = b }) = λ b.
        Keeps-modify _ (λ s h.
          kept.settings s s.admin b s.penalty_percent s.auto_release_period
            s.required_emergency_approvals h) in
      (
        search (keeps_rules, admin_keeps, set, kept.audited) depth 60,
        search (keeps_rules, admin_keeps, set, kept.audited) depth 60,
      )

  penalty_keeps :
      (now percent : ℤ) (caller : String) → Keeps P (update_penalty_percent now percent caller)
  unfolding update_penalty_percent
  penalty_keeps now percent caller =
      let set : (percent : ℤ) → Keeps P (modify λ e. record e { penalty_percent = percent }) =
        λ percent. Keeps-modify _ (λ s h.
          kept.settings s s.admin s.paused percent s.auto_release_period
            s.required_emergency_approvals h) in
      search (keeps_rules, admin_keeps, set, kept.audited) depth 60

  period_keeps :
      (now period : ℤ) (caller : String) → Keeps P (update_auto_release_period now period caller)
  unfolding update_auto_release_period
  period_keeps now period caller =
      let set : (period : ℤ) → Keeps P (modify λ e. record e { auto_release_period = period }) =
        λ period. Keeps-modify _ (λ s h.
          kept.settings s s.admin s.paused s.penalty_percent period s.required_emergency_approvals
            h) in
      search (keeps_rules, admin_keeps, set, kept.audited) depth 60

  approvals_keeps :
      (now count : ℤ) (caller : String)
      → Keeps P (update_required_emergency_approvals now count caller)
  unfolding update_required_emergency_approvals
  approvals_keeps now count caller =
      let set : (count : ℤ)
          → Keeps P (modify λ e. record e { required_emergency_approvals = count }) =
        λ count. Keeps-modify _ (λ s h.
          kept.settings s s.admin s.paused s.penalty_percent s.auto_release_period count h) in
      search (keeps_rules, admin_keeps, set, kept.audited) depth 60

  due_same : (now : ℤ) (t : EnergyTrade) (s : EnergyEscrow) → s ≡ (is_due now t s).1
  unfolding is_due is_trade_expired get_trade_or_throw
  due_same now t s = ground arith

  due_keeps : (now : ℤ) (t : EnergyTrade) → Keeps P (is_due now t)
  due_keeps now t = record { on = λ s h. subst P (due_same now t s) h }

  release_if_keeps : (b : Bool) (now : ℤ) (t : EnergyTrade) → Keeps P (release_if b now t)
  unfolding release_if
  release_if_keeps true now t = search (keeps_rules, release_keeps, kept.moved, emitted) depth 60
  release_if_keeps false now t = search keeps_rules

  each_keeps : (now : ℤ) (trades : List EnergyTrade) (n : ℕ) → Keeps P (process_each now trades n)
  unfolding process_each
  each_keeps now [] n = search keeps_rules
  each_keeps now (t ∷ trades) n =
      search (keeps_rules, due_keeps, release_if_keeps, each_keeps now trades) depth 60

  process_keeps : (now : ℤ) → Keeps P (process_auto_releases now)
  unfolding process_auto_releases
  process_keeps now = search (keeps_rules, each_keeps) depth 60

  after_keeps :
      (now : ℤ) (caller : String) (m : Method) (e : EnergyEscrow) → P e → P (after now caller m e)
  unfolding after
  after_keeps now caller (creates b s m amount watt time count) =
      (create_keeps now b s m amount watt time count caller).on
  after_keeps now caller (deposits id amount watt) = (deposit_keeps now id amount watt caller).on
  after_keeps now caller (confirms id) = (delivery_keeps now id caller).on
  after_keeps now caller (confirms_milestone id m) = (milestone_keeps now id m caller).on
  after_keeps now caller (releases id to amount m) = (release_keeps now id to amount caller m).on
  after_keeps now caller (cancels id reason) = (cancel_keeps now id reason caller).on
  after_keeps now caller (disputes id respondent reason evidence) =
      (dispute_keeps now id respondent reason evidence caller).on
  after_keeps now caller (resolves id r) = (resolve_keeps now id r caller).on
  after_keeps now caller (requests id reason) = (request_keeps now id reason caller).on
  after_keeps now caller (approves id) = (approve_keeps now id caller).on
  after_keeps now caller (executes id to) = (execute_keeps now id to caller).on
  after_keeps now caller (updates_admin admin) = (update_admin_keeps now admin caller).on
  after_keeps now caller pauses = (pause_keeps now caller).0.on
  after_keeps now caller unpauses = (pause_keeps now caller).1.on
  after_keeps now caller (updates_penalty percent) = (penalty_keeps now percent caller).on
  after_keeps now caller (updates_period period) = (period_keeps now period caller).on
  after_keeps now caller (updates_approvals count) = (approvals_keeps now count caller).on
  after_keeps now caller processes = (process_keeps now).on

  -- What the writes keep holds after any calls.
  pub Runs-keeps : {e f : EnergyEscrow} → Runs e f → P e → P f
  Runs-keeps start h = h
  Runs-keeps (step now caller m r) h = after_keeps now caller m _ (Runs-keeps r h)
