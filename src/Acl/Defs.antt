-- ===== src/Acl/Defs.antt =====
-- ACLGovernance: members, proposals with a payload of any type, votes and feedback. The clock is in
-- milliseconds; `Math.random` is an argument, the text that the source makes of it.
use current_dao_contracts.Base.{
  ⊤, ℕ, ◌/◌, length, ℤ, pos, ◌+ℤ◌, ltb_ℤ, leb_ℤ, String, ◌==◌, concat, show_number, Bool, true,
  false, not, ◌&&◌, Option, none, some, List, [], ◌∷◌, ◌++◌, filter, Dict, get, set, Set, has, add,
  add_all, remove, Call, pure, gets, or_throw, throw_if, modify, ◌>>=◌, ◌>>◌, if◌then◌else◌,
}

pub data GovernanceProposalType : Type 0 where
  create_role update_role grant_role revoke_role create_permission assign_permission update_config
        emergency_action :
      GovernanceProposalType

-- The value of the enumeration, as a template literal shows it.
abbrev pub type_text : GovernanceProposalType → String
type_text create_role = "CREATE_ROLE"
type_text update_role = "UPDATE_ROLE"
type_text grant_role = "GRANT_ROLE"
type_text revoke_role = "REVOKE_ROLE"
type_text create_permission = "CREATE_PERMISSION"
type_text assign_permission = "ASSIGN_PERMISSION"
type_text update_config = "UPDATE_CONFIG"
type_text emergency_action = "EMERGENCY_ACTION"

pub data GovernanceVoteChoice : Type 0 where
  for against abstain : GovernanceVoteChoice

abbrev pub same_choice : GovernanceVoteChoice → GovernanceVoteChoice → Bool
same_choice for for = true
same_choice against against = true
same_choice abstain abstain = true
same_choice _ _ = false

pub record GovernanceVote : Type 0 where
  pub voter : String
  pub choice : GovernanceVoteChoice
  pub weight : ℤ
  pub reason : Option String
  pub timestamp : ℤ

pub record CommunityFeedback : Type 0 where
  pub author : String
  pub support : Bool
  pub comment : String
  pub timestamp : ℤ

pub data Status : Type 0 where
  pending approved rejected executed : Status

pub record GovernanceProposal (P : Type 0) : Type 0 where
  pub id : String
  pub kind : GovernanceProposalType  -- `type`
  pub title : String
  pub description : String
  pub proposer : String
  pub payload : P
  pub votes : List GovernanceVote
  pub feedback : List CommunityFeedback
  pub created_at : ℤ
  pub executable_at : ℤ
  pub executed_at : Option ℤ
  pub status : Status

pub record GovernanceEvaluation : Type 0 where
  pub is_approved : Bool  -- `approved`
  pub for_votes : ℤ
  pub against_votes : ℤ
  pub abstain_votes : ℤ
  pub community_support : ℤ
  pub community_opposition : ℤ

pub record AclGovernance (P : Type 0) : Type 0 where
  pub governance_members : Set
  pub proposals : Dict (GovernanceProposal P)

-- `ACLLib.now`, from `Date.now()`
unfoldable pub seconds : ℕ → ℤ
seconds now = pos (now / 1000)

-- The weights of the votes for one choice, summed.
unfoldable pub sum_votes : GovernanceVoteChoice → List GovernanceVote → ℤ
sum_votes choice [] = pos 0
sum_votes choice (v ∷ vs) =
    let rest = sum_votes choice vs in if same_choice v.choice choice then v.weight +ℤ rest else rest

-- `reason ? { reason } : {}`
abbrev pub non_empty : Option String → Option String
non_empty none = none
non_empty (some s) = if s == "" then none else some s

-- The votes after `voter` has voted.
unfoldable pub replace_vote :
    ℤ → String → GovernanceVoteChoice → Option String → List GovernanceVote → List GovernanceVote
replace_vote now voter choice reason votes =
    filter (λ (v : GovernanceVote). not (v.voter == voter)) votes
    ++ (record {
      voter = voter;
      choice = choice;
      weight = pos 1;
      reason = non_empty reason;
      timestamp = now;
    }
        ∷ [])

-- `approved ? 'APPROVED' : proposal.status === 'EXECUTED' ? 'EXECUTED' : 'PENDING'`
unfoldable pub evaluated : Bool → Status → Status
evaluated true status = approved
evaluated false executed = executed
evaluated false _ = pending

abbrev pub is_status_approved : Status → Bool
is_status_approved approved = true
is_status_approved _ = false

module _ {P : Type 0} where
  unfoldable pub new : List String → AclGovernance P
  new members = record { governance_members = add_all members []; proposals = [] }

  unfoldable pub assert_member : String → Call (AclGovernance P) ⊤
  assert_member member = do
    throw_if (← gets (λ g. not (has member g.governance_members))) "INVALID_GOVERNANCE_MEMBER"

  unfoldable pub get_proposal : String → Call (AclGovernance P) (GovernanceProposal P)
  get_proposal id = do found ← gets (λ g. get id g.proposals); or_throw found "PROPOSAL_NOT_FOUND"

  -- Writes a stored proposal; the source writes the fields of the object that the map holds.
  abbrev pub write : String → GovernanceProposal P → AclGovernance P → AclGovernance P
  write id p g = record g { proposals = set id p g.proposals }

  -- The proposal that `createProposal` stores.
  unfoldable pub created :
      ℕ → String → GovernanceProposalType → String → String → String → P → ℤ → GovernanceProposal P
  created now random kind title description proposer payload delay = record {
    id = concat (type_text kind ∷ "_" ∷ show_number (pos now) ∷ "_" ∷ random ∷ []);
    kind = kind;
    title = title;
    description = description;
    proposer = proposer;
    payload = payload;
    votes = [];
    feedback = [];
    created_at = seconds now;
    executable_at = seconds now +ℤ delay;
    executed_at = none;
    status = pending;
  }

  unfoldable pub create_proposal :
      ℕ
      → String
      → GovernanceProposalType
      → String
      → String
      → String
      → P
      → ℤ
      → Call (AclGovernance P) (GovernanceProposal P)
  unfolding assert_member get_proposal
  create_proposal now random kind title description proposer payload delay = do
    assert_member proposer
    p ← pure (created now random kind title description proposer payload delay)
    modify (write p.id p)
    get_proposal p.id

  unfoldable pub cast_vote :
      ℕ
      → String
      → String
      → GovernanceVoteChoice
      → Option String
      → Call (AclGovernance P) (GovernanceProposal P)
  unfolding assert_member get_proposal
  cast_vote now id voter choice reason = do
    assert_member voter
    p ← get_proposal id
    modify (write id (record p { votes = replace_vote (seconds now) voter choice reason p.votes }))
    get_proposal id

  unfoldable pub submit_community_feedback :
      ℕ → String → String → Bool → String → Call (AclGovernance P) (GovernanceProposal P)
  unfolding get_proposal
  submit_community_feedback now id author support comment = do
    p ← get_proposal id
    modify (
        write id (record p {
          feedback =
              p.feedback
              ++ (record {
                author = author;
                support = support;
                comment = comment;
                timestamp = seconds now;
              }
                  ∷ []);
        }))
    get_proposal id

  -- What `evaluateProposal` finds.
  unfoldable pub evaluation : ℤ → ℤ → GovernanceProposal P → GovernanceEvaluation
  evaluation threshold community_quorum p =
      let f = sum_votes for p.votes in
      let a = sum_votes against p.votes in
      record {
        is_approved =
            leb_ℤ threshold f && ltb_ℤ a f && leb_ℤ community_quorum (pos (length p.feedback));
        for_votes = f;
        against_votes = a;
        abstain_votes = sum_votes abstain p.votes;
        community_support = pos (length (filter (λ (c : CommunityFeedback). c.support) p.feedback));
        community_opposition =
            pos (length (filter (λ (c : CommunityFeedback). not c.support) p.feedback));
      }

  unfoldable pub evaluate_proposal : String → ℤ → ℤ → Call (AclGovernance P) GovernanceEvaluation
  unfolding get_proposal
  evaluate_proposal id threshold community_quorum = do
    p ← get_proposal id
    e ← pure (evaluation threshold community_quorum p)
    modify (write id (record p { status = evaluated e.is_approved p.status }))
    pure e

  unfoldable pub mark_executed : ℕ → String → Call (AclGovernance P) (GovernanceProposal P)
  unfolding get_proposal
  mark_executed now id = do
    p ← get_proposal id
    throw_if (not (is_status_approved p.status)) "PROPOSAL_NOT_APPROVED"
    throw_if (ltb_ℤ (seconds now) p.executable_at) "PROPOSAL_NOT_EXECUTABLE"
    modify (write id (record p { status = executed; executed_at = some (seconds now) }))
    get_proposal id

  unfoldable pub add_governance_member : String → AclGovernance P → AclGovernance P
  add_governance_member member g = record g { governance_members = add member g.governance_members }

  unfoldable pub remove_governance_member : String → AclGovernance P → AclGovernance P
  remove_governance_member member g = record g {
    governance_members = remove member g.governance_members;
  }

  unfoldable pub replace_governance_members : List String → AclGovernance P → AclGovernance P
  replace_governance_members members g = record g { governance_members = add_all members [] }
