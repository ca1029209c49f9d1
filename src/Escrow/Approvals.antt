-- ===== src/Escrow/Approvals.antt =====
-- Who approves an emergency release, and when it can be executed.
use current_dao_contracts.Base.{
  ℕ, ◌+◌, ◌≤◌, ℤ, pos, ◌≤ℤ◌, length, String, eq_iff, Bool, true, false, List, [], ◌∷◌, ◌++◌, some,
  Table, find, put, has, ◌≡◌, ◌≢◌, refl, sym, ap, ◌∙◌, ◌⊎◌, inl, inr, arith, ok, Call, Option-cases,
  Bool-cases, Outcome-cases, Dict,
}
use current_dao_contracts.Base.Keeps.{Keeps}
use mathlib.Core.Path.{subst}
use current_dao_contracts.Escrow.Trade.{
  EscrowStatus, EnergyTrade, EmergencyRequest, DisputeEvidence, DisputeResolution, new_request,
  approve, execute, can_execute,
}
use current_dao_contracts.Escrow.Checks.{
  participants, validate_emergency_approval, validate_addresses,
}
use current_dao_contracts.Escrow.State.{
  EnergyEscrow, Detail, new, guards, when_not_paused, check_rate_limit, non_reentrant,
  update_status, get_trade_or_throw, add_audit_entry,
}
use current_dao_contracts.Escrow.Trading.{open_trade}
use current_dao_contracts.Escrow.Disputes.{
  open_dispute, close_dispute, open_request, record_approval, record_execution,
  execute_emergency_release,
}
use current_dao_contracts.Escrow.Steps.{IsKept, Runs-keeps}
use current_dao_contracts.Escrow.Methods.{Reach, from}
use current_dao_contracts.Escrow.Status.{
  Follows, Follows-start, Follows-IsKept, Follows-same, new-IsFresh,
}
use current_dao_contracts.Escrow.Frames.{request-SameTrades}
use current_dao_contracts.Escrow.Vouched.{
  count, Parties, AllVouched, AllVouched-Follows, AllVouched-put,
}

approval_writes :
    (id : ℕ) (caller : String) (e : EnergyEscrow)
    → ((record_approval id caller e).1 ≡ e)
      ⊎ ((r : EmergencyRequest) × (t : EnergyTrade) × (find id e.emergency_requests ≡ some r)
          × (find r.trade_id e.trades ≡ some t)
          × (r.executed ≡ false)
          × (has caller r.approvals ≡ false)
          × (has caller (participants t) ≡ true)
          × ((record_approval id caller e).1 ≡ record e {
            emergency_requests =
                put id (record r { approvals = r.approvals ++ (caller ∷ []) }) e.emergency_requests;
          }))
unfolding record_approval get_trade_or_throw validate_emergency_approval approve
approval_writes id caller e = elim (Option-cases (find id e.emergency_requests)) [
  | inl absent ↦ inl (ground arith)
  | inr (r, at) ↦ elim (Option-cases (find r.trade_id e.trades)) [
    | inl absent ↦ inl (ground arith)
    | inr (t, at_trade) ↦ elim (Bool-cases r.executed) [
      | inl done ↦ inl (ground arith)
      | inr undone ↦ elim (Bool-cases (has caller r.approvals)) [
        | inl again ↦ inl (ground arith)
        | inr first ↦ elim (Bool-cases (has caller (participants t))) [
          | inl party ↦ inr (r, t, at, at_trade, undone, first, party, ground arith)
          | inr stranger ↦ inl (ground arith)
        ]
      ]
    ]
  ]
]

execution_writes :
    (now : ℤ) (id : ℕ) (to caller : String) (e : EnergyEscrow)
    → ((record_execution now id to caller e).1 ≡ e)
      ⊎ ((r : EmergencyRequest) × (find id e.emergency_requests ≡ some r)
          × (can_execute r ≡ true)
          × ((record_execution now id to caller e).1 ≡ record e {
            emergency_requests =
                put id
                  (record r { executed = true; executed_at = some now; executed_by = some caller })
                  e.emergency_requests;
          }))
unfolding record_execution get_trade_or_throw execute
execution_writes now id to caller e = elim (Option-cases (find id e.emergency_requests)) [
  | inl absent ↦ inl (ground arith)
  | inr (r, at) ↦ elim (Bool-cases (can_execute r)) [
    | inr early ↦ inl (ground arith)
    | inl enough ↦ elim (Option-cases (find r.trade_id e.trades)) [
      | inl absent ↦ inl (ground arith)
      | inr (t, at_trade) ↦ elim (Outcome-cases (validate_addresses (to ∷ []))) [
        | inl (u, valid) ↦ inr (r, at, enough, ground arith)
        | inr (why, invalid) ↦ inl (ground arith)
      ]
    ]
  ]
]

request_writes :
    (now : ℤ) (id : ℕ) (caller reason : String) (required : ℤ) (e : EnergyEscrow)
    → let e' = (open_request now id caller reason required e).1 in
      (e'.emergency_requests ≡ e.emergency_requests)
      ⊎ ((r : EmergencyRequest) × (r.approvals ≡ [])
          × (r.executed ≡ false)
          × (e'.emergency_requests ≡ put e.next_emergency_request_id r e.emergency_requests))
unfolding open_request new_request
request_writes now id caller reason required e =
    elim (Outcome-cases (new_request now e.next_emergency_request_id id caller reason required)) [
      | inl (r, made) ↦ inr (r, ground arith, ground arith, ground arith)
      | inr (why, refused) ↦ inl (ground arith)
    ]

count-append :
    (who a : String) (l : List String)
    → count who (l ++ (a ∷ [])) ≡ count who l + count who (a ∷ [])
count-append who a [] = omega arith
count-append who a (b ∷ l) = ground (arith, count-append who a l)

count_absent : (who : String) (l : List String) → has who l ≡ false → count who l ≡ 0
count_absent who [] h = refl
count_absent who (b ∷ l) h = ground (arith, count_absent who l)

Parties-append :
    (trades : Table EnergyTrade) (id : ℕ) (l : List String) (a : String) (t : EnergyTrade)
    → find id trades ≡ some t
    → has a (participants t) ≡ true
    → Parties trades id l
    → Parties trades id (l ++ (a ∷ []))
Parties-append trades id [] a t at party h = ((t, at, party), tt)
Parties-append trades id (b ∷ l) a t at party h = (h.0, Parties-append trades id l a t at party h.1)

approval-AllVouched : (id : ℕ) (caller : String) → Keeps AllVouched (record_approval id caller)
approval-AllVouched id caller = record {
  on = λ e h. elim (approval_writes id caller e) [
    | inl same ↦ subst AllVouched (sym same) h
    | inr (r, t, at, at_trade, undone, first, party, wrote) ↦
        let v = h.1 id r at in
        AllVouched-put e (record_approval id caller e).1 id _
          (ap (λ (x : EnergyEscrow). x.trades) wrote)
          (ap (λ (x : EnergyEscrow). x.next_trade_id) wrote)
          (ap (λ (x : EnergyEscrow). x.emergency_requests) wrote)
          (record {
            once = λ who.
                let split = count-append who caller r.approvals in
                ground
                  (arith, v.once who, count_absent caller r.approvals first, eq_iff caller who);
            parties =
                Parties-append e.trades r.trade_id r.approvals caller t at_trade party v.parties;
            enough = λ done. cc (done, undone);
          })
          h
  ];
}

execution-AllVouched :
    (now : ℤ) (id : ℕ) (to caller : String) → Keeps AllVouched (record_execution now id to caller)
execution-AllVouched now id to caller = record {
  on = λ e h. elim (execution_writes now id to caller e) [
    | inl same ↦ subst AllVouched (sym same) h
    | inr (r, at, enough, wrote) ↦
        let v = h.1 id r at in
        AllVouched-put e (record_execution now id to caller e).1 id _
          (ap (λ (x : EnergyEscrow). x.trades) wrote)
          (ap (λ (x : EnergyEscrow). x.next_trade_id) wrote)
          (ap (λ (x : EnergyEscrow). x.emergency_requests) wrote)
          (record { once = v.once; parties = v.parties; enough = λ done. ground arith }) h
  ];
}

request-AllVouched :
    (now : ℤ) (id : ℕ) (caller reason : String) (required : ℤ)
    → Keeps AllVouched (open_request now id caller reason required)
request-AllVouched now id caller reason required = record {
  on = λ e h.
      let e' = (open_request now id caller reason required e).1 in
      let same = request-SameTrades now id caller reason required e in
      elim (request_writes now id caller reason required e) [
        | inl unchanged ↦
            AllVouched-Follows e e' (Follows-same e.trades e e' same (Follows-start e h.0))
              unchanged h
        | inr (r, none_yet, undone, wrote) ↦
            AllVouched-put e e' e.next_emergency_request_id r same.trades same.next wrote
              (record {
                once = λ who. ground (arith, none_yet);
                parties = subst (Parties e.trades r.trade_id) (sym none_yet) tt;
                enough = λ done. cc (done, undone);
              })
              h
      ];
}

-- A call that the trades follow from and that writes no request.
other-AllVouched :
    {A : Type 0} (m : Call EnergyEscrow A)
    → ((before : Table EnergyTrade) → Keeps (Follows before) m)
    → ((e : EnergyEscrow) → (m e).1.emergency_requests ≡ e.emergency_requests)
    → Keeps AllVouched m
other-AllVouched m follows same = record {
  on = λ e h.
      AllVouched-Follows e (m e).1 ((follows e.trades).on e (Follows-start e h.0)) (same e) h;
}

update_requests :
    (id : ℕ) (next : EscrowStatus) (e : EnergyEscrow)
    → (update_status id next e).1.emergency_requests ≡ e.emergency_requests
unfolding update_status get_trade_or_throw
update_requests id next e = ground arith

open_requests :
    (now : ℤ) (b s m : String) (amount watt time : ℤ) (n : ℕ) (e : EnergyEscrow)
    → (open_trade now b s m amount watt time n e).1.emergency_requests ≡ e.emergency_requests
unfolding open_trade
open_requests now b s m amount watt time n e = ground arith

dispute_requests :
    (now : ℤ) (id : ℕ) (c w reason : String) (evidence : List DisputeEvidence) (e : EnergyEscrow)
    → (open_dispute now id c w reason evidence e).1.emergency_requests ≡ e.emergency_requests
unfolding open_dispute
dispute_requests now id c w reason evidence e = ground arith

close_requests :
    (now : ℤ) (id : ℕ) (r : DisputeResolution) (caller : String) (e : EnergyEscrow)
    → (close_dispute now id r caller e).1.emergency_requests ≡ e.emergency_requests
unfolding close_dispute get_trade_or_throw
close_requests now id r caller e = ground arith

audit_requests :
    (now : ℤ) (action actor : String) (details : Dict Detail) (e : EnergyEscrow)
    → (add_audit_entry now action actor details e).1.emergency_requests ≡ e.emergency_requests
unfolding add_audit_entry
audit_requests now action actor details e = refl

AllVouched-IsKept : IsKept AllVouched
AllVouched-IsKept = record {
  limited = λ s operations entered h. h;
  audited = λ now action actor details.
      other-AllVouched _ (λ before. (Follows-IsKept before).audited now action actor details)
        (audit_requests now action actor details);
  moved = λ id next.
      other-AllVouched _ (λ before. (Follows-IsKept before).moved id next)
        (update_requests id next);
  opened = λ now b s m amount watt time n.
      other-AllVouched _ (λ before. (Follows-IsKept before).opened now b s m amount watt time n)
        (open_requests now b s m amount watt time n);
  disputed = λ now id c w reason evidence.
      other-AllVouched _ (λ before. (Follows-IsKept before).disputed now id c w reason evidence)
        (dispute_requests now id c w reason evidence);
  closed = λ now id r caller.
      other-AllVouched _ (λ before. (Follows-IsKept before).closed now id r caller)
        (close_requests now id r caller);
  requested = request-AllVouched;
  approved = approval-AllVouched;
  executed = execution-AllVouched;
  delivered = λ s milestones next emitted h. h;
  settings = λ s admin paused penalty period approvals h. h;
}

Reach-AllVouched : {e : EnergyEscrow} → Reach e → AllVouched e
unfolding new
Reach-AllVouched (from {e = e} now admin made runs) =
    Runs-keeps AllVouched-IsKept runs (new-IsFresh now admin e made, λ id r at. ground arith)

-- In every state that calls lead to from a new contract, an emergency request that is executed has at
-- least as many approvals as it required, each by another account, each by a participant of its trade.
pub executed_with_approvals :
    {e : EnergyEscrow} (id : ℕ) (r : EmergencyRequest)
    → Reach e
    → find id e.emergency_requests ≡ some r
    → r.executed ≡ true
    → (r.required_approvals ≤ℤ pos (length r.approvals))
      × ((who : String) → count who r.approvals ≤ 1)
      × Parties e.trades r.trade_id r.approvals
executed_with_approvals id r reach at done =
    let v = (Reach-AllVouched reach).1 id r at in (v.enough done, v.once, v.parties)

Parties-count :
    (trades : Table EnergyTrade) (id : ℕ) (l : List String) (t : EnergyTrade)
    → find id trades ≡ some t
    → Parties trades id l
    → length l ≤ count t.buyer l + count t.seller l + count t.mediator l
Parties-count trades id [] t at h = omega arith
Parties-count trades id (a ∷ l) t at ((u, at_u, party), rest) =
    let same : u ≡ t = ground arith in
    let is_party : has a (participants t) ≡ true =
      ap (λ (v : EnergyTrade). has a (participants v)) (sym same) ∙ party in
    ground (
      arith,
      Parties-count trades id l t at rest,
      eq_iff a t.buyer,
      eq_iff a t.seller,
      eq_iff a t.mediator,
      eq_iff t.buyer a,
      eq_iff t.seller a,
      eq_iff t.mediator a,
    )

at_most_three :
    (trades : Table EnergyTrade) (id : ℕ) (l : List String)
    → ((who : String) → count who l ≤ 1)
    → Parties trades id l
    → length l ≤ 3
at_most_three trades id [] once h = omega arith
at_most_three trades id (a ∷ l) once h =
    let (t, at, _) = h.0 in
    omega
      (arith, Parties-count trades id (a ∷ l) t at h, once t.buyer, once t.seller, once t.mediator)

-- In every such state, a request has at most three approvals: one that requires more, as the
-- administrator may set, is never executed, and a call to execute it does not return.
pub four_approvals_never :
    {e : EnergyEscrow} (now : ℤ) (id : ℕ) (to caller : String) (r : EmergencyRequest) (b : Bool)
    → Reach e
    → find id e.emergency_requests ≡ some r
    → pos 4 ≤ℤ r.required_approvals
    → (r.executed ≡ false) × ((execute_emergency_release now id to caller e).0 ≢ ok b)
unfolding execute_emergency_release record_execution guards when_not_paused check_rate_limit
    non_reentrant
four_approvals_never {e} now id to caller r b reach at four =
    let v = (Reach-AllVouched reach).1 id r at in
    let few : length r.approvals ≤ 3 =
      at_most_three e.trades r.trade_id r.approvals v.once v.parties in
    (ground (arith, v.enough), λ done. ground arith)
