-- ===== src/Acl/Execution.antt =====
-- When a proposal is marked as executed, and what a vote replaces.
use current_dao_contracts.Base.{
  ℕ, ℤ, pos, leb_ℤ, ◌≡◌, ◌↔◌, refl, ap, inl, inr, String, ◌==◌, eq_iff, str_eq_refl, true, false,
  Option, some, List, [], ◌∷◌, filter, arith, get, has, get-set_self, ok, Bool-cases,
}
use current_dao_contracts.Acl.Defs.{
  GovernanceVoteChoice, GovernanceVote, GovernanceProposal, AclGovernance, assert_member,
  get_proposal, write, replace_vote, cast_vote, evaluation, evaluated, evaluate_proposal,
  mark_executed, approved, executed, seconds, non_empty,
}

-- The votes of one voter.
abbrev pub votes_from : String → List GovernanceVote → List GovernanceVote
votes_from voter vs = filter (λ (v : GovernanceVote). v.voter == voter) vs

votes_from-replace_self :
    (now : ℤ) (voter : String) (choice : GovernanceVoteChoice) (reason : Option String)
    (vs : List GovernanceVote)
    → votes_from voter (replace_vote now voter choice reason vs)
      ≡ record {
        voter = voter;
        choice = choice;
        weight = pos 1;
        reason = non_empty reason;
        timestamp = now;
      }
        ∷ []
unfolding replace_vote
votes_from-replace_self now voter choice reason [] = rw (str_eq_refl voter) refl
votes_from-replace_self now voter choice reason (v ∷ vs) = elim (Bool-cases (v.voter == voter)) [
  | inl same ↦ rw same (votes_from-replace_self now voter choice reason vs)
  | inr other ↦ rw other (rw other (votes_from-replace_self now voter choice reason vs))
]

votes_from-replace_ne :
    (now : ℤ) (voter w : String) (choice : GovernanceVoteChoice) (reason : Option String)
    (vs : List GovernanceVote)
    → (voter == w) ≡ false
    → votes_from w (replace_vote now voter choice reason vs) ≡ votes_from w vs
unfolding replace_vote
votes_from-replace_ne now voter w choice reason [] apart = rw apart refl
votes_from-replace_ne now voter w choice reason (v ∷ vs) apart =
    let rest = votes_from-replace_ne now voter w choice reason vs apart in
    elim (Bool-cases (v.voter == voter)) [
      | inl same ↦
          let k : (v.voter == w) ≡ false = rw ((eq_iff v.voter voter).0 same) apart in
          rw (same, k) rest
      | inr other ↦ rw other (ground arith)
    ]

module _ {P : Type 0} where
  -- A member's vote on a stored proposal returns; it replaces what the member had voted before and
  -- leaves the votes of everybody else as they were.
  pub vote_replaces :
      (now : ℕ) (id voter : String) (choice : GovernanceVoteChoice) (reason : Option String)
      (g : AclGovernance P) (p : GovernanceProposal P)
      → has voter g.governance_members ≡ true
      → get id g.proposals ≡ some p
      → (p' : GovernanceProposal P) × ((cast_vote now id voter choice reason g).0 ≡ ok p')
        × (votes_from voter p'.votes
            ≡ record {
              voter = voter;
              choice = choice;
              weight = pos 1;
              reason = non_empty reason;
              timestamp = seconds now;
            }
              ∷ [])
        × ((w : String) → (voter == w) ≡ false → votes_from w p'.votes ≡ votes_from w p.votes)
  unfolding cast_vote assert_member get_proposal
  vote_replaces now id voter choice reason g p member at =
      let p' = record p { votes = replace_vote (seconds now) voter choice reason p.votes } in
      let stored = get-set_self id p' g.proposals in
      (
        p',
        ground arith,
        votes_from-replace_self (seconds now) voter choice reason p.votes,
        λ w apart. votes_from-replace_ne (seconds now) voter w choice reason p.votes apart,
      )

  -- Marking a stored proposal as executed returns exactly when it is approved and due, and then the
  -- stored proposal is executed.
  pub mark_exactly :
      (now : ℕ) (id : String) (g : AclGovernance P) (p : GovernanceProposal P)
      → get id g.proposals ≡ some p
      → let p' = record p { status = executed; executed_at = some (seconds now) } in
        (mark_executed now id g ≡ (ok p', write id p' g))
        ↔ ((p.status ≡ approved) × (leb_ℤ p.executable_at (seconds now) ≡ true))
  unfolding mark_executed get_proposal
  mark_exactly now id g p at =
      let p' = record p { status = executed; executed_at = some (seconds now) } in
      let stored = get-set_self id p' g.proposals in
      ((λ returned. ground arith), λ (is_approved, due). ground arith)

  -- An executed proposal that is due and whose votes and feedback still suffice can be evaluated and
  -- executed once more.
  pub executed_again :
      (now : ℕ) (id : String) (threshold quorum : ℤ) (g : AclGovernance P)
      (p : GovernanceProposal P)
      → get id g.proposals ≡ some p
      → p.status ≡ executed
      → (evaluation threshold quorum p).is_approved ≡ true
      → leb_ℤ p.executable_at (seconds now) ≡ true
      → (mark_executed now id (evaluate_proposal id threshold quorum g).1).0
        ≡ ok (record p { status = executed; executed_at = some (seconds now) })
  unfolding mark_executed evaluate_proposal get_proposal evaluated
  executed_again now id threshold quorum g p at done approves due =
      let q = record p { status = approved } in
      let evaluated_to : (evaluate_proposal id threshold quorum g).1 ≡ write id q g =
        ground arith in
      let marked = (mark_exactly now id (write id q g) q (get-set_self id q g.proposals)).1 in
      rw evaluated_to (ap (λ r. r.0) (marked (refl, due)))
