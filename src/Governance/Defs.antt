-- ===== src/Governance/Defs.antt =====
-- contracts/dao/Governance.ts, method by method, with VotingLib, QuadraticVoting and the structures.
use current_dao_contracts.Base.{
  ⊤, ℕ, zero, suc, ◌+◌, ◌*◌, leb, ℤ, pos, negsuc, ◌+ℤ◌, ◌*ℤ◌, ltb_ℤ, leb_ℤ, eqb_ℤ, String, ◌==◌,
  concat, slice_to, show_number, Bool, true, false, not, ◌&&◌, List, [], ◌∷◌, Dict, get, set,
  has_key, Call, pure, gets, throw_if, or_throw, modify, ◌>>=◌, ◌>>◌, if◌then◌else◌, get_or,
}
use current_dao_contracts.Token.{Token, balance_of}

pub data ProposalStatus : Type 0 where
  draft active queued executed canceled defeated : ProposalStatus

abbrev pub is_active : ProposalStatus → Bool
is_active active = true
is_active _ = false

abbrev pub is_queued : ProposalStatus → Bool
is_queued queued = true
is_queued _ = false

pub record Proposal : Type 0 where
  pub id : String
  pub proposer : String
  pub description : String
  pub targets : List String
  pub values : List ℤ
  pub calldatas : List String
  pub start_time : ℤ
  pub end_time : ℤ
  pub vote_start : ℤ
  pub vote_end : ℤ
  pub status : ProposalStatus
  pub for_votes : ℤ
  pub against_votes : ℤ
  pub abstain_votes : ℤ
  pub is_executed : Bool  -- `executed`
  pub is_canceled : Bool  -- `canceled`
  pub quorum : ℤ

pub record VoteReceipt : Type 0 where
  pub has_voted : Bool
  pub support : ℤ
  pub votes : ℤ
  pub weight : ℤ

-- `VotingLib.isProposalActive`
unfoldable pub is_proposal_active : Proposal → ℤ → Bool
is_proposal_active p current_time =
    is_active p.status && leb_ℤ p.vote_start current_time && leb_ℤ current_time p.vote_end

-- `VotingLib.hasReachedQuorum`
unfoldable pub has_reached_quorum : Proposal → Bool
has_reached_quorum p = leb_ℤ p.quorum (p.for_votes +ℤ p.against_votes +ℤ p.abstain_votes)

-- `VotingLib.hasSucceeded`
unfoldable pub has_succeeded : Proposal → Bool
unfolding has_reached_quorum
has_succeeded p = ltb_ℤ p.against_votes p.for_votes && has_reached_quorum p

-- `VotingLib.generateProposalId`; the description takes no part in it.
unfoldable pub generate_proposal_id : ℤ → String → String → ℤ → String
unfolding show_number
generate_proposal_id now proposer description nonce =
    concat
      ("PROPOSAL_" ∷ slice_to 6 proposer ∷ "_" ∷ show_number nonce ∷ "_" ∷ show_number now ∷ [])

-- `Math.floor(Math.sqrt(n))`, the greatest number whose square is at most `n`.
unfoldable pub floor_sqrt : ℕ → ℕ
floor_sqrt zero = 0
floor_sqrt (suc n) = let r = floor_sqrt n in if leb ((r + 1) * (r + 1)) (suc n) then r + 1 else r

-- `QuadraticVoting.calculateVotingPower`
unfoldable pub calculate_voting_power : ℤ → ℤ
unfolding floor_sqrt
calculate_voting_power (pos n) = pos (floor_sqrt n)
calculate_voting_power (negsuc n) = pos 0

pub record Governance : Type 0 where
  pub proposals : Dict Proposal
  pub receipts : Dict (Dict VoteReceipt)
  pub delegates : Dict String
  pub token : Token
  pub proposal_count : ℤ
  pub quorum : ℤ
  pub voting_period : ℤ
  pub proposal_threshold : ℤ
  pub timelock_delay : ℤ
  pub owner : String

unfoldable pub new : Token → String → Governance
new token owner = record {
  proposals = [];
  receipts = [];
  delegates = [];
  token = token;
  proposal_count = pos 0;
  quorum = pos 1000;
  voting_period = pos 86400000;
  proposal_threshold = pos 100;
  timelock_delay = pos 172800000;
  owner = owner;
}

unfoldable pub only_owner : String → Call Governance ⊤
only_owner caller = do
  throw_if (← gets (λ g. not (caller == g.owner))) "Only owner can adjust parameters"

unfoldable pub set_quorum : ℤ → String → Call Governance ⊤
unfolding only_owner
set_quorum new_quorum caller = do only_owner caller; modify λ g. record g { quorum = new_quorum }

unfoldable pub set_voting_period : ℤ → String → Call Governance ⊤
unfolding only_owner
set_voting_period new_period caller = do
  only_owner caller
  modify λ g. record g { voting_period = new_period }

-- The proposal that `propose` stores: voting starts a second from now.
unfoldable pub proposed :
    ℤ → String → List String → List ℤ → List String → String → String → Governance → Proposal
proposed now id targets values calldatas description proposer g =
    let vote_start = now +ℤ pos 1000 in
    let vote_end = vote_start +ℤ g.voting_period in
    record {
      id = id;
      proposer = proposer;
      description = description;
      targets = targets;
      values = values;
      calldatas = calldatas;
      start_time = now;
      end_time = vote_end;
      vote_start = vote_start;
      vote_end = vote_end;
      status = active;
      for_votes = pos 0;
      against_votes = pos 0;
      abstain_votes = pos 0;
      is_executed = false;
      is_canceled = false;
      quorum = g.quorum;
    }

unfoldable pub propose :
    ℤ → List String → List ℤ → List String → String → String → Call Governance String
unfolding proposed
propose now targets values calldatas description proposer = do
  throw_if (← gets (λ g. ltb_ℤ (balance_of proposer g.token) g.proposal_threshold))
      "Governance: insufficient tokens to propose"
  id ← gets (λ g. generate_proposal_id now proposer description g.proposal_count)
  modify λ g. record g { proposal_count = g.proposal_count +ℤ pos 1 }
  modify λ g. record g {
    proposals =
        set id (proposed now id targets values calldatas description proposer g) g.proposals;
  }
  modify λ g. record g { receipts = set id [] g.receipts }
  pure id

unfoldable pub delegate : String → String → Call Governance ⊤
delegate delegatee delegator =
    modify λ g. record g { delegates = set delegator delegatee g.delegates }

-- The loop of `getVotingPower` over the delegations, from the balance so far.
unfoldable pub add_delegated : Token → String → Dict String → ℤ → ℤ
add_delegated token account [] total = total
add_delegated token account ((delegator, delegatee) ∷ rest) total =
    add_delegated token account rest
      (if delegatee == account then total +ℤ balance_of delegator token else total)

-- The balance that `getVotingPower` takes the root of.
unfoldable pub total_balance : String → Governance → ℤ
unfolding add_delegated
total_balance account g = add_delegated g.token account g.delegates (balance_of account g.token)

unfoldable pub get_voting_power : String → Governance → ℤ
unfolding total_balance calculate_voting_power
get_voting_power account g = calculate_voting_power (total_balance account g)

-- `this.receipts.get(id)!`: `propose` puts it there with the proposal.
abbrev pub receipts_of : String → Governance → Dict VoteReceipt
receipts_of id g = get_or (get id g.receipts) []

-- The counters of `castVote`: 1 is for, 0 against, 2 abstain, and any other number counts nowhere.
unfoldable pub tally : ℤ → ℤ → Proposal → Proposal
tally support weight p =
    if eqb_ℤ support (pos 1)
    then record p { for_votes = p.for_votes +ℤ weight }
    else if eqb_ℤ support (pos 0)
    then record p { against_votes = p.against_votes +ℤ weight }
    else if eqb_ℤ support (pos 2)
    then record p { abstain_votes = p.abstain_votes +ℤ weight }
    else p

unfoldable pub receipt_for : ℤ → ℤ → VoteReceipt
receipt_for support weight = record {
  has_voted = true;
  support = support;
  votes = weight *ℤ weight;
  weight = weight;
}

unfoldable pub cast_vote : ℤ → String → ℤ → String → Call Governance ℤ
unfolding is_proposal_active
cast_vote now id support voter = do
  proposal ← or_throw (← gets (λ g. get id g.proposals)) "Governance: proposal not found"
  throw_if (not (is_proposal_active proposal now)) "Governance: voting not active"
  throw_if (← gets (λ g. has_key voter (receipts_of id g))) "Governance: already voted"
  weight ← gets (get_voting_power voter)
  throw_if (leb_ℤ weight (pos 0)) "Governance: no voting power"
  modify λ g. record g {
    receipts = set id (set voter (receipt_for support weight) (receipts_of id g)) g.receipts;
  }
  modify λ g. record g { proposals = set id (tally support weight proposal) g.proposals }
  pure weight

-- `getProposalStatus`, at a proposal that is found.
unfoldable pub status_of : ℤ → Proposal → Governance → ProposalStatus
unfolding has_succeeded
status_of now p g =
    if p.is_canceled
    then canceled
    else if p.is_executed
    then executed
    else if ltb_ℤ now p.vote_start
    then draft
    else if leb_ℤ now p.vote_end
    then active
    else if has_succeeded p
    then (if leb_ℤ (p.vote_end +ℤ g.timelock_delay) now then queued else active)
    else defeated

unfoldable pub get_proposal_status : ℤ → String → Call Governance ProposalStatus
unfolding status_of
get_proposal_status now id = do
  proposal ← or_throw (← gets (λ g. get id g.proposals)) "Governance: proposal not found"
  gets (status_of now proposal)

unfoldable pub execute : ℤ → String → String → Call Governance ⊤
unfolding get_proposal_status
execute now id executor = do
  proposal ← or_throw (← gets (λ g. get id g.proposals)) "Governance: proposal not found"
  status ← get_proposal_status now id
  throw_if (not (is_queued status)) "Governance: proposal not queued for execution"
  modify λ g. record g {
    proposals = set id (record proposal { status = executed; is_executed = true }) g.proposals;
  }

unfoldable pub cancel : String → String → Call Governance ⊤
cancel id canceler = do
  proposal ← or_throw (← gets (λ g. get id g.proposals)) "Governance: proposal not found"
  throw_if (← gets (λ g. not (canceler == proposal.proposer) && not (canceler == g.owner)))
      "Governance: only proposer or owner can cancel"
  throw_if proposal.is_executed "Governance: cannot cancel executed proposal"
  modify λ g. record g {
    proposals = set id (record proposal { status = canceled; is_canceled = true }) g.proposals;
  }

unfoldable pub get_proposal : String → Call Governance Proposal
get_proposal id = do
  found ← gets (λ g. get id g.proposals)
  or_throw found "Governance: proposal not found"

-- The receipt of an account that has not voted is empty.
unfoldable pub get_receipt : String → String → Call Governance VoteReceipt
get_receipt id voter = do
  found ← gets (λ g. get id g.receipts)
  receipts ← or_throw found "Governance: proposal not found"
  pure (
      get_or (get voter receipts)
        (record { has_voted = false; support = pos 0; votes = pos 0; weight = pos 0 }))
