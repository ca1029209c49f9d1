-- ===== src/Acl/Votes.antt =====
-- Every stored proposal holds such votes, so an approval counts voters.
use current_dao_contracts.Base.{
  ℕ, ◌<◌, ◌≤◌, length, ℤ, pos, ◌≤ℤ◌, leb_ℤ, ltb_ℤ, ◌≡◌, ◌≢◌, refl, sym, ◌∙◌, inl, inr, String, ◌==◌,
  eq_iff, Bool, true, Option, none, some, [], ◌∷◌, ◌++◌, arith, get, get-set_self, get-set_ne, ok,
  Bool-cases, Option-cases,
}
use mathlib.Core.Path.{subst}
use current_dao_contracts.Acl.Defs.{
  GovernanceProposalType, GovernanceVoteChoice, GovernanceProposal, AclGovernance,
  GovernanceEvaluation, for, against, sum_votes, new, get_proposal, write, created, create_proposal,
  replace_vote, cast_vote, submit_community_feedback, evaluation, evaluate_proposal, mark_executed,
  add_governance_member, remove_governance_member, replace_governance_members, seconds, evaluated,
  executed,
}
use current_dao_contracts.Acl.Methods.{
  Method, proposes, votes, comments, evaluates, executes, adds, removes, replaces, after, Reach,
  start, step, absent_unchanged, create_writes, cast_writes, other_writes,
}
use current_dao_contracts.Acl.Ballots.{
  votes_of, IsBallot, replace_vote-IsBallot, for_choice, sum_votes-counts,
}

-- Every stored proposal has such votes.
abbrev pub IsFair : {P : Type 0} → AclGovernance P → Type 0
IsFair {P} g =
    (id : String) (p : GovernanceProposal P) → get id g.proposals ≡ some p → IsBallot p.votes

module _ {P : Type 0} where
  write-IsFair :
      (key : String) (p : GovernanceProposal P) (g : AclGovernance P)
      → IsFair g
      → IsBallot p.votes
      → IsFair (write key p g)
  write-IsFair key p g h ballot id p' e = elim (Bool-cases (key == id)) [
    | inl here ↦
        let k : key ≡ id = (eq_iff key id).0 here in
        let t : p ≡ p' = cc (e, k, get-set_self id p g.proposals) in
        subst (λ (q : GovernanceProposal P). IsBallot q.votes) t ballot
    | inr elsewhere ↦
        let apart : key ≢ id = λ k. cc (elsewhere, (eq_iff key id).1 k) in
        h id p' (sym (get-set_ne key id p g.proposals apart) ∙ e)
  ]

  mark_keeps :
      (key : String) (p q : GovernanceProposal P) (g : AclGovernance P)
      → get key g.proposals ≡ some p
      → q.votes ≡ p.votes
      → IsFair g
      → IsFair (write key q g)
  mark_keeps key p q g at same h = write-IsFair key q g h (subst IsBallot (sym same) (h key p at))

  create-IsFair :
      (now : ℕ) (random : String) (kind : GovernanceProposalType)
      (title description caller : String) (payload : P) (delay : ℤ) (g : AclGovernance P)
      → IsFair g
      → IsFair (create_proposal now random kind title description caller payload delay g).1
  unfolding created votes_of
  create-IsFair now random kind title description caller payload delay g h =
      let p = created now random kind title description caller payload delay in
      elim (create_writes now random kind title description caller payload delay g) [
        | inl same ↦ subst IsFair (sym same) h
        | inr wrote ↦ subst IsFair (sym wrote) (write-IsFair p.id p g h ((λ w. omega arith), tt))
      ]

  cast-IsFair :
      (now : ℕ) (id caller : String) (choice : GovernanceVoteChoice) (reason : Option String)
      (g : AclGovernance P)
      → IsFair g
      → IsFair (cast_vote now id caller choice reason g).1
  cast-IsFair now id caller choice reason g h = elim (Option-cases (get id g.proposals)) [
    | inl absent ↦
        subst IsFair
          (sym (absent_unchanged now id caller "" choice reason true (pos 0) (pos 0) g absent).0) h
    | inr (p, at) ↦ elim (cast_writes now id caller choice reason g p at) [
      | inl same ↦ subst IsFair (sym same) h
      | inr wrote ↦ subst IsFair (sym wrote) (
          write-IsFair id
            (record p { votes = replace_vote (seconds now) caller choice reason p.votes }) g h
            (replace_vote-IsBallot (seconds now) caller choice reason p.votes (h id p at)))
    ]
  ]

  other-IsFair :
      (now : ℕ) (id caller text : String) (support : Bool) (threshold quorum : ℤ)
      (g : AclGovernance P)
      → IsFair g
      → IsFair (submit_community_feedback now id caller support text g).1
        × IsFair (evaluate_proposal id threshold quorum g).1
        × IsFair (mark_executed now id g).1
  other-IsFair now id caller text support threshold quorum g h =
      elim (Option-cases (get id g.proposals)) [
        | inl absent ↦
            let (_, a, b, c) =
              absent_unchanged now id caller text against none support threshold quorum g absent in
            (subst IsFair (sym a) h, subst IsFair (sym b) h, subst IsFair (sym c) h)
        | inr (p, at) ↦
            let (a, b, c) = other_writes now id caller text support threshold quorum g p at in
            (
              subst IsFair (sym a) (
                  mark_keeps id p
                    (record p {
                      feedback =
                          p.feedback
                          ++ (record {
                            author = caller;
                            support = support;
                            comment = text;
                            timestamp = seconds now;
                          }
                              ∷ []);
                    })
                    g at refl h),
              subst IsFair (sym b) (
                  mark_keeps id p
                    (record p {
                      status = evaluated (evaluation threshold quorum p).is_approved p.status;
                    })
                    g at refl h),
              elim c [
                | inl same ↦ subst IsFair (sym same) h
                | inr (_, _, wrote) ↦ subst IsFair (sym wrote) (
                    mark_keeps id p
                      (record p { status = executed; executed_at = some (seconds now) }) g at refl
                      h)
              ],
            )
      ]

  after-IsFair :
      (now : ℕ) (caller : String) (m : Method P) (g : AclGovernance P)
      → IsFair g
      → IsFair (after now caller m g)
  unfolding after add_governance_member remove_governance_member replace_governance_members
  after-IsFair now caller (proposes random kind title description payload delay) g h =
      create-IsFair now random kind title description caller payload delay g h
  after-IsFair now caller (votes id choice reason) g h = cast-IsFair now id caller choice reason g h
  after-IsFair now caller (comments id support text) g h =
      (other-IsFair now id caller text support (pos 0) (pos 0) g h).0
  after-IsFair now caller (evaluates id threshold quorum) g h =
      (other-IsFair now id caller "" true threshold quorum g h).1
  after-IsFair now caller (executes id) g h =
      (other-IsFair now id caller "" true (pos 0) (pos 0) g h).2
  after-IsFair now caller (adds member) g h = h
  after-IsFair now caller (removes member) g h = h
  after-IsFair now caller (replaces members) g h = h

  Reach-IsFair : {g : AclGovernance P} → Reach g → IsFair g
  unfolding new
  Reach-IsFair (start members) = λ id p e. ground arith
  Reach-IsFair (step now caller m r) = after-IsFair now caller m _ (Reach-IsFair r)

  -- In every state that calls lead to, an approval of a stored proposal means that at least
  -- `threshold` votes are for it, more than are against it, that no voter has two votes, and that
  -- there are at least `quorum` items of feedback.
  pub approved_by_voters :
      {g : AclGovernance P}
      → (id : String) (threshold quorum : ℤ) (p : GovernanceProposal P) (e : GovernanceEvaluation)
      → Reach g
      → get id g.proposals ≡ some p
      → (evaluate_proposal id threshold quorum g).0 ≡ ok e
      → e.is_approved ≡ true
      → (threshold ≤ℤ pos (length (for_choice for p.votes)))
        × (length (for_choice against p.votes) < length (for_choice for p.votes))
        × ((voter : String) → votes_of voter p.votes ≤ 1)
        × (quorum ≤ℤ pos (length p.feedback))
  unfolding evaluate_proposal get_proposal evaluation
  approved_by_voters {g} id threshold quorum p e r at evaluates_to approves =
      let (once, ones) = Reach-IsFair r id p at in
      let f = sum_votes-counts for p.votes ones in
      let a = sum_votes-counts against p.votes ones in
      let (t, m, q) : ((leb_ℤ threshold (sum_votes for p.votes)) ≡ true)
          × ((ltb_ℤ (sum_votes against p.votes) (sum_votes for p.votes)) ≡ true)
          × ((leb_ℤ quorum (pos (length p.feedback))) ≡ true) =
        ground arith in
      let t' : leb_ℤ threshold (pos (length (for_choice for p.votes))) ≡ true = cc (t, f) in
      let m' : ltb_ℤ (pos (length (for_choice against p.votes)))
            (pos (length (for_choice for p.votes)))
          ≡ true =
        cc (m, f, a) in
      (ground arith, ground arith, once, ground arith)
