-- ===== src/Governance/Methods.antt =====
-- The calls of the governance contract that write, and what each may write.
use current_dao_contracts.Base.{
  ℤ, pos, ◌+ℤ◌, ◌≡◌, ◌⊎◌, String, true, false, none, some, List, [], arith, eq_iff, Dict, get, set,
}
use current_dao_contracts.Token.{Token}
use current_dao_contracts.Governance.Defs.{
  Governance, Proposal, VoteReceipt, executed, canceled, new, set_quorum, set_voting_period,
  generate_proposal_id, proposed, propose, delegate, receipts_of, tally, receipt_for,
  get_voting_power, cast_vote, execute, cancel, status_of, is_queued,
}

-- A call that writes, or a change of the token, which the contract only reads.
pub data Method : Type 0 where
  sets_quorum sets_voting_period : ℤ → Method
  proposes : List String → List ℤ → List String → String → Method
  delegates_to : String → Method
  casts : String → ℤ → Method
  executes cancels : String → Method
  token_becomes : Token → Method

-- The contract after the call, whether it returned or threw.
unfoldable pub after : ℤ → String → Method → Governance → Governance
after now caller (sets_quorum n) g = (set_quorum n caller g).1
after now caller (sets_voting_period n) g = (set_voting_period n caller g).1
after now caller (proposes targets values calldatas description) g =
    (propose now targets values calldatas description caller g).1
after now caller (delegates_to delegatee) g = (delegate delegatee caller g).1
after now caller (casts id support) g = (cast_vote now id support caller g).1
after now caller (executes id) g = (execute now id caller g).1
after now caller (cancels id) g = (cancel id caller g).1
after now caller (token_becomes token) g = record g { token = token }

-- The contracts that calls by anybody, at any times, lead to from a new one.
pub data Reach : Governance → Type 0 where
  start : (token : Token) (owner : String) → Reach (new token owner)
  step :
      {g : Governance} (now : ℤ) (caller : String) (m : Method)
      → Reach g
      → Reach (after now caller m g)

-- A proposal and its receipts, written together under `key`.
abbrev pub write : String → Proposal → Dict VoteReceipt → Governance → Governance
write key p m g = record g { proposals = set key p g.proposals; receipts = set key m g.receipts }

-- What the calls that write proposals may have made of the contract.
pub cast_writes :
    (now : ℤ) (id : String) (support : ℤ) (voter : String) (g : Governance) (p : Proposal)
    → get id g.proposals ≡ some p
    → ((cast_vote now id support voter g).1 ≡ g)
      ⊎ (get voter (receipts_of id g) ≡ none)
        × ((cast_vote now id support voter g).1
            ≡ write id
                (tally support (get_voting_power voter g) p)
                (set voter (receipt_for support (get_voting_power voter g)) (receipts_of id g))
                g)
unfolding cast_vote
cast_writes now id support voter g p e = ground arith

pub execute_writes :
    (now : ℤ) (id executor : String) (g : Governance) (p : Proposal)
    → get id g.proposals ≡ some p
    → ((execute now id executor g).1 ≡ g)
      ⊎ (is_queued (status_of now p g) ≡ true)
        × ((execute now id executor g).1 ≡ record g {
          proposals = set id (record p { status = executed; is_executed = true }) g.proposals;
        })
unfolding execute
execute_writes now id executor g p e = ground arith

pub cancel_writes :
    (id canceler : String) (g : Governance) (p : Proposal)
    → get id g.proposals ≡ some p
    → ((cancel id canceler g).1 ≡ g)
      ⊎ (p.is_executed ≡ false)
        × ((canceler ≡ p.proposer) ⊎ (canceler ≡ g.owner))
        × ((cancel id canceler g).1 ≡ record g {
          proposals = set id (record p { status = canceled; is_canceled = true }) g.proposals;
        })
unfolding cancel
cancel_writes id canceler g p e =
    ground (arith, eq_iff canceler p.proposer, eq_iff canceler g.owner)

pub propose_writes :
    (now : ℤ) (targets : List String) (values : List ℤ) (calldatas : List String)
    (description proposer : String) (g : Governance)
    → let id = generate_proposal_id now proposer description g.proposal_count in
      ((propose now targets values calldatas description proposer g).1 ≡ g)
      ⊎ ((propose now targets values calldatas description proposer g).1
          ≡ write id
              (proposed now id targets values calldatas description proposer g)
              []
              (record g { proposal_count = g.proposal_count +ℤ pos 1 }))
unfolding propose
propose_writes now targets values calldatas description proposer g = ground arith

-- Of a proposal that is not there, nothing is written.
pub absent_unchanged :
    (now : ℤ) (id : String) (support : ℤ) (caller : String) (g : Governance)
    → get id g.proposals ≡ none
    → ((cast_vote now id support caller g).1 ≡ g)
      × ((execute now id caller g).1 ≡ g)
      × ((cancel id caller g).1 ≡ g)
unfolding cast_vote execute cancel
absent_unchanged now id support caller g e = (ground arith, ground arith, ground arith)
