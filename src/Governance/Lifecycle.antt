-- ===== src/Governance/Lifecycle.antt =====
-- The life of a proposal: when it can be executed, and that its end is final.
use current_dao_contracts.Base.{
  ⊤, ℤ, pos, ◌+ℤ◌, ltb_ℤ, leb_ℤ, ◌≡◌, ◌≢◌, refl, sym, ap, String, ◌==◌, Bool, true, false, not,
  ◌&&◌, some, arith, eq_iff, Dict, get, set, get-set, get-set_self, get-set_ne, ok, throws,
  if◌then◌else◌, Bool-cases, Option-cases, inl, inr,
}
use mathlib.Core.Path.{subst}
use current_dao_contracts.Governance.Defs.{
  is_queued, status_of, Governance, Proposal, ProposalStatus, VoteReceipt, active, executed,
  canceled, new, set_quorum, set_voting_period, generate_proposal_id, proposed, propose, delegate,
  receipts_of, tally, get_voting_power, cast_vote, execute, cancel,
}
use current_dao_contracts.Governance.Methods.{
  Method, sets_quorum, sets_voting_period, proposes, delegates_to, casts, executes, cancels,
  token_becomes, after, Reach, start, step, cast_writes, execute_writes, cancel_writes,
  propose_writes, absent_unchanged,
}
use current_dao_contracts.Governance.Votes.{weight_for, votes_tallied}

-- The proposal `p` with the receipts `m` has passed, and its delay is over.
abbrev pub can_execute : ℤ → Proposal → Dict VoteReceipt → Governance → Bool
can_execute now p m g =
    not p.is_canceled
    && not p.is_executed
    && leb_ℤ p.vote_start now
    && ltb_ℤ p.vote_end now
    && leb_ℤ (p.vote_end +ℤ g.timelock_delay) now
    && ltb_ℤ (weight_for (pos 0) m) (weight_for (pos 1) m)
    && leb_ℤ p.quorum (weight_for (pos 1) m +ℤ weight_for (pos 0) m +ℤ weight_for (pos 2) m)

execute_outcome :
    (now : ℤ) (id executor : String) (g : Governance) (p : Proposal) (m : Dict VoteReceipt)
    → get id g.proposals ≡ some p
    → p.for_votes ≡ weight_for (pos 1) m
    → p.against_votes ≡ weight_for (pos 0) m
    → p.abstain_votes ≡ weight_for (pos 2) m
    → (execute now id executor g).0 ≡ (
        if can_execute now p m g
        then ok tt
        else throws "Governance: proposal not queued for execution")
unfolding execute
execute_outcome now id executor g p m at f a b = ground arith

-- In every contract that calls lead to, execution of a stored proposal succeeds exactly if the
-- proposal is neither canceled nor executed, its voting and the delay after it are over, the receipts
-- for it outweigh those against, and all its receipts together reach its quorum. It throws otherwise.
pub execute_exactly :
    (now : ℤ) (id executor : String) (g : Governance) (p : Proposal)
    → Reach g
    → get id g.proposals ≡ some p
    → (execute now id executor g).0 ≡ (
        if can_execute now p (receipts_of id g) g
        then ok tt
        else throws "Governance: proposal not queued for execution")
execute_exactly now id executor g p r at =
    let (_, f, a, b) = votes_tallied id p r at in
    execute_outcome now id executor g p (receipts_of id g) at f a b

-- The flags of a proposal fit its status.
abbrev Flags : ProposalStatus → Proposal → Type 0
Flags active p = (p.is_executed ≡ false) × (p.is_canceled ≡ false)
Flags executed p = (p.is_executed ≡ true) × (p.is_canceled ≡ false)
Flags canceled p = (p.is_executed ≡ false) × (p.is_canceled ≡ true)
Flags _ p = ⊥

abbrev AllFlags : Governance → Type 0
AllFlags g = (id : String) (p : Proposal) → get id g.proposals ≡ some p → Flags p.status p

set-AllFlags :
    (key : String) (p : Proposal) (g g' : Governance)
    → g'.proposals ≡ set key p g.proposals
    → Flags p.status p
    → AllFlags g
    → AllFlags g'
set-AllFlags key p g g' wrote flags h id p' e = elim (Bool-cases (key == id)) [
  | inl here ↦
      let k : key ≡ id = (eq_iff key id).0 here in
      let t : p ≡ p' = cc (e, wrote, k, get-set_self id p g.proposals) in
      subst (λ q. Flags q.status q) t flags
  | inr elsewhere ↦
      let apart : key ≢ id = λ k. cc (elsewhere, (eq_iff key id).1 k) in
      h id p' (cc (e, wrote, get-set_ne key id p g.proposals apart))
]

tally-Flags :
    (support weight : ℤ) (p : Proposal)
    → Flags p.status p
    → Flags (tally support weight p).status (tally support weight p)
unfolding tally
tally-Flags support weight p h = ground arith

queued_flags :
    (now : ℤ) (p : Proposal) (g : Governance)
    → is_queued (status_of now p g) ≡ true
    → (p.is_executed ≡ false) × (p.is_canceled ≡ false)
unfolding status_of
queued_flags now p g h = ground arith

after-AllFlags :
    (now : ℤ) (caller : String) (m : Method) (g : Governance)
    → AllFlags g
    → AllFlags (after now caller m g)
unfolding after set_quorum set_voting_period delegate proposed
after-AllFlags now caller (sets_quorum n) g h = λ id p e. h id p (ground arith)
after-AllFlags now caller (sets_voting_period n) g h = λ id p e. h id p (ground arith)
after-AllFlags now caller (proposes targets values calldatas description) g h =
    let id = generate_proposal_id now caller description g.proposal_count in
    let p = proposed now id targets values calldatas description caller g in
    elim (propose_writes now targets values calldatas description caller g) [
      | inl same ↦ subst AllFlags (sym same) h
      | inr wrote ↦
          set-AllFlags id p g (propose now targets values calldatas description caller g).1
            (ap (λ (x : Governance). x.proposals) wrote) (refl, refl) h
    ]
after-AllFlags now caller (delegates_to delegatee) g h = h
after-AllFlags now caller (casts id support) g h = elim (Option-cases (get id g.proposals)) [
  | inl absent ↦ subst AllFlags (sym (absent_unchanged now id support caller g absent).0) h
  | inr (p, at) ↦ elim (cast_writes now id support caller g p at) [
    | inl same ↦ subst AllFlags (sym same) h
    | inr (_, wrote) ↦
        let w = get_voting_power caller g in
        set-AllFlags id (tally support w p) g (cast_vote now id support caller g).1
          (ap (λ (x : Governance). x.proposals) wrote) (tally-Flags support w p (h id p at)) h
  ]
]
after-AllFlags now caller (executes id) g h = elim (Option-cases (get id g.proposals)) [
  | inl absent ↦ subst AllFlags (sym (absent_unchanged now id (pos 0) caller g absent).1) h
  | inr (p, at) ↦ elim (execute_writes now id caller g p at) [
    | inl same ↦ subst AllFlags (sym same) h
    | inr (q, wrote) ↦
        set-AllFlags id (record p { status = executed; is_executed = true }) g
          (execute now id caller g).1 (ap (λ (x : Governance). x.proposals) wrote)
          (refl, (queued_flags now p g q).1) h
  ]
]
after-AllFlags now caller (cancels id) g h = elim (Option-cases (get id g.proposals)) [
  | inl absent ↦ subst AllFlags (sym (absent_unchanged now id (pos 0) caller g absent).2) h
  | inr (p, at) ↦ elim (cancel_writes id caller g p at) [
    | inl same ↦ subst AllFlags (sym same) h
    | inr (unexecuted, _, wrote) ↦
        set-AllFlags id (record p { status = canceled; is_canceled = true }) g
          (cancel id caller g).1 (ap (λ (x : Governance). x.proposals) wrote) (unexecuted, refl) h
  ]
]
after-AllFlags now caller (token_becomes token) g h = h

Reach-AllFlags : {g : Governance} → Reach g → AllFlags g
unfolding new
Reach-AllFlags (start token owner) = λ id p e. cc e
Reach-AllFlags (step {g} now caller m r) = after-AllFlags now caller m g (Reach-AllFlags r)

-- A proposal does not come out at the id `id`.
abbrev pub IsApart : ℤ → String → Method → String → Governance → Type 0
IsApart now caller (proposes _ _ _ description) id g =
    generate_proposal_id now caller description g.proposal_count ≢ id
IsApart _ _ _ _ _ = ⊤

cast_settled :
    (now : ℤ) (key id : String) (support : ℤ) (voter : String) (g : Governance) (p : Proposal)
    → get id g.proposals ≡ some p
    → p.status ≢ active
    → get id (cast_vote now key support voter g).1.proposals ≡ some p
unfolding cast_vote
cast_settled now key id support voter g p at settled = elim (Option-cases (get key g.proposals)) [
  | inl absent ↦ ground arith
  | inr (found, at') ↦ ground (
    arith,
    eq_iff key id,
    get-set_ne key id (tally support (get_voting_power voter g) found) g.proposals,
  )
]

-- No call turns an executed or a canceled proposal into one that is queued.
settled_not_queued :
    (now : ℤ) (p : Proposal) (g : Governance)
    → Flags p.status p
    → p.status ≢ active
    → is_queued (status_of now p g) ≡ false
unfolding status_of
settled_not_queued now p g flags settled = ground arith

execute_settled :
    (now : ℤ) (key id executor : String) (g : Governance) (p : Proposal)
    → Flags p.status p
    → get id g.proposals ≡ some p
    → p.status ≢ active
    → get id (execute now key executor g).1.proposals ≡ some p
execute_settled now key id executor g p flags at settled =
    elim (Option-cases (get key g.proposals)) [
      | inl absent ↦ rw (absent_unchanged now key (pos 0) executor g absent).1 at
      | inr (found, at') ↦ elim (execute_writes now key executor g found at') [
        | inl same ↦ rw same at
        | inr (q, wrote) ↦ elim (Bool-cases (key == id)) [
          | inl here ↦
              absurd
                (cc (q, at, at', (eq_iff key id).0 here, settled_not_queued now p g flags settled))
          | inr elsewhere ↦ cc (
            wrote,
            at,
            get-set_ne key id (record found { status = executed; is_executed = true }) g.proposals
                (λ k. cc (elsewhere, (eq_iff key id).1 k)),
          )
        ]
      ]
    ]

cancel_settled :
    (key id canceler : String) (g : Governance) (p : Proposal)
    → Flags p.status p
    → get id g.proposals ≡ some p
    → p.status ≢ active
    → get id (cancel key canceler g).1.proposals ≡ some p
unfolding cancel
cancel_settled key id canceler g p flags at settled = elim (Option-cases (get key g.proposals)) [
  | inl absent ↦ ground arith
  | inr (found, at') ↦ ground (
    arith,
    eq_iff key id,
    get-set key id (record found { status = canceled; is_canceled = true }) g.proposals,
  )
]

-- In every contract that calls lead to: a proposal that has been executed or canceled stays as it
-- is, its counters included, whatever is called. It is not executed again, nor after a cancellation,
-- nor canceled after its execution. Only a new proposal whose id comes out the same is left aside.
pub settled_stays :
    (now : ℤ) (caller id : String) (m : Method) (g : Governance) (p : Proposal)
    → Reach g
    → get id g.proposals ≡ some p
    → p.status ≢ active
    → IsApart now caller m id g
    → get id (after now caller m g).proposals ≡ some p
unfolding after set_quorum set_voting_period delegate
settled_stays now caller id (sets_quorum n) g p r at settled apart = ground arith
settled_stays now caller id (sets_voting_period n) g p r at settled apart = ground arith
settled_stays now caller id (proposes targets values calldatas description) g p r at settled apart =
    let key = generate_proposal_id now caller description g.proposal_count in
    elim (propose_writes now targets values calldatas description caller g) [
      | inl same ↦ rw same at
      | inr wrote ↦ cc (
        wrote,
        at,
        get-set_ne key id (proposed now key targets values calldatas description caller g)
            g.proposals apart,
      )
    ]
settled_stays now caller id (delegates_to delegatee) g p r at settled apart = at
settled_stays now caller id (casts key support) g p r at settled apart =
    cast_settled now key id support caller g p at settled
settled_stays now caller id (executes key) g p r at settled apart =
    execute_settled now key id caller g p (Reach-AllFlags r id p at) at settled
settled_stays now caller id (cancels key) g p r at settled apart =
    cancel_settled key id caller g p (Reach-AllFlags r id p at) at settled
settled_stays now caller id (token_becomes token) g p r at settled apart = at
