-- ===== src/Acl/Methods.antt =====
-- The calls of ACLGovernance that write, and what each may write.
use current_dao_contracts.Base.{
  ℕ, ℤ, ltb_ℤ, ◌≡◌, ◌⊎◌, String, Bool, false, Option, none, some, List, [], ◌∷◌, ◌++◌, arith, get,
}
use current_dao_contracts.Acl.Defs.{
  GovernanceProposalType, GovernanceVoteChoice, GovernanceProposal, AclGovernance,
  CommunityFeedback, new, assert_member, get_proposal, write, created, create_proposal,
  replace_vote, cast_vote, submit_community_feedback, evaluation, evaluate_proposal, mark_executed,
  add_governance_member, remove_governance_member, replace_governance_members, seconds, evaluated,
  approved, executed,
}

-- A call that writes.
pub data Method (P : Type 0) : Type 0 where
  proposes : String → GovernanceProposalType → String → String → P → ℤ → Method P
  votes : String → GovernanceVoteChoice → Option String → Method P
  comments : String → Bool → String → Method P
  evaluates : String → ℤ → ℤ → Method P
  executes : String → Method P
  adds removes : String → Method P
  replaces : List String → Method P

module _ {P : Type 0} where
  -- The state after the call, whether it returned or threw.
  unfoldable pub after : ℕ → String → Method P → AclGovernance P → AclGovernance P
  after now caller (proposes random kind title description payload delay) g =
      (create_proposal now random kind title description caller payload delay g).1
  after now caller (votes id choice reason) g = (cast_vote now id caller choice reason g).1
  after now caller (comments id support comment) g =
      (submit_community_feedback now id caller support comment g).1
  after now caller (evaluates id threshold quorum) g = (evaluate_proposal id threshold quorum g).1
  after now caller (executes id) g = (mark_executed now id g).1
  after now caller (adds member) g = add_governance_member member g
  after now caller (removes member) g = remove_governance_member member g
  after now caller (replaces members) g = replace_governance_members members g

  pub data Reach : AclGovernance P → Type 0 where
    start : (members : List String) → Reach (new members)
    step :
        {g : AclGovernance P}
        → (now : ℕ) (caller : String) (m : Method P) → Reach g
        → Reach (after now caller m g)

  -- A missing proposal is left alone by the four calls that write one.
  pub absent_unchanged :
      (now : ℕ) (id caller text : String) (choice : GovernanceVoteChoice) (reason : Option String)
      (support : Bool) (threshold quorum : ℤ) (g : AclGovernance P)
      → get id g.proposals ≡ none
      → ((cast_vote now id caller choice reason g).1 ≡ g)
        × ((submit_community_feedback now id caller support text g).1 ≡ g)
        × ((evaluate_proposal id threshold quorum g).1 ≡ g)
        × ((mark_executed now id g).1 ≡ g)
  unfolding cast_vote assert_member submit_community_feedback evaluate_proposal mark_executed
      get_proposal
  absent_unchanged now id caller text choice reason support threshold quorum g absent = ground arith

  pub create_writes :
      (now : ℕ) (random : String) (kind : GovernanceProposalType)
      (title description caller : String) (payload : P) (delay : ℤ) (g : AclGovernance P)
      → let p = created now random kind title description caller payload delay in
        ((create_proposal now random kind title description caller payload delay g).1 ≡ g)
        ⊎ ((create_proposal now random kind title description caller payload delay g).1
            ≡ write p.id p g)
  unfolding create_proposal assert_member get_proposal
  create_writes now random kind title description caller payload delay g = ground arith

  pub cast_writes :
      (now : ℕ) (id caller : String) (choice : GovernanceVoteChoice) (reason : Option String)
      (g : AclGovernance P) (p : GovernanceProposal P)
      → get id g.proposals ≡ some p
      → ((cast_vote now id caller choice reason g).1 ≡ g)
        ⊎ ((cast_vote now id caller choice reason g).1
            ≡ write id
                (record p { votes = replace_vote (seconds now) caller choice reason p.votes })
                g)
  unfolding cast_vote assert_member get_proposal
  cast_writes now id caller choice reason g p at = ground arith

  pub other_writes :
      (now : ℕ) (id caller text : String) (support : Bool) (threshold quorum : ℤ)
      (g : AclGovernance P) (p : GovernanceProposal P)
      → get id g.proposals ≡ some p
      → let comment : CommunityFeedback = record {
        author = caller;
        support = support;
        comment = text;
        timestamp = seconds now;
      } in
        let e = evaluation threshold quorum p in
        ((submit_community_feedback now id caller support text g).1
          ≡ write id (record p { feedback = p.feedback ++ (comment ∷ []) }) g)
        × ((evaluate_proposal id threshold quorum g).1
            ≡ write id (record p { status = evaluated e.is_approved p.status }) g)
        × (((mark_executed now id g).1 ≡ g)
            ⊎ ((p.status ≡ approved)
                × (ltb_ℤ (seconds now) p.executable_at ≡ false)
                × ((mark_executed now id g).1
                    ≡ write id
                        (record p { status = executed; executed_at = some (seconds now) })
                        g)))
  unfolding submit_community_feedback evaluate_proposal mark_executed get_proposal
  other_writes now id caller text support threshold quorum g p at = ground arith
