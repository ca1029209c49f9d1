-- ===== src/Acl/Tests.antt =====
-- A vote of three members on a new role, and the theorems at it.
use current_dao_contracts.Base.{
  ◌≤◌, ◌<◌, length, pos, leb_ℤ, ◌≤ℤ◌, ◌≡◌, ◌↔◌, refl, String, ◌==◌, true, false, none, some, [],
  ◌∷◌, get, set, add_all, show_number, ◌+ℤ◌, ok,
}
use current_dao_contracts.Acl.Defs.{
  AclGovernance, GovernanceProposal, create_role, for, against, new, created, replace_vote,
  create_proposal, cast_vote, evaluate_proposal, mark_executed, evaluation, write, approved,
  executed, seconds, sum_votes, assert_member, get_proposal,
}
use current_dao_contracts.Acl.Methods.{proposes, votes, after, Reach, start, step}
use current_dao_contracts.Acl.Ballots.{votes_of, for_choice}
use current_dao_contracts.Acl.Votes.{approved_by_voters}
use current_dao_contracts.Acl.Execution.{votes_from, vote_replaces, mark_exactly, executed_again}

abbrev id : String
id = "CREATE_ROLE_5000_c0ffee"

abbrev g0 : AclGovernance String
g0 = new ("ann" ∷ "bob" ∷ "cyd" ∷ [])

abbrev p1 : GovernanceProposal String
p1 = created 5000 "c0ffee" create_role "role" "a role" "ann" "OPERATOR" (pos 60)

abbrev g1 : AclGovernance String
g1 = after 5000 "ann" (proposes "c0ffee" create_role "role" "a role" "OPERATOR" (pos 60)) g0

abbrev g2 : AclGovernance String
g2 = after 6000 "ann" (votes id for none) g1

abbrev g3 : AclGovernance String
g3 = after 7000 "bob" (votes id for none) g2

abbrev p3 : GovernanceProposal String
p3 = record p1 {
  votes =
      record { voter = "ann"; choice = for; weight = pos 1; reason = none; timestamp = pos 6 }
      ∷ record { voter = "bob"; choice = for; weight = pos 1; reason = none; timestamp = pos 7 }
      ∷ [];
}

reached : Reach g3
reached = step 7000 "bob" (votes id for none) (
    step 6000 "ann" (votes id for none) (
      step 5000 "ann" (proposes "c0ffee" create_role "role" "a role" "OPERATOR" (pos 60))
        (start ("ann" ∷ "bob" ∷ "cyd" ∷ []))))

stored : get id g3.proposals ≡ some p3
unfolding new after created create_proposal cast_vote assert_member get_proposal replace_vote
    seconds add_all set show_number
stored = refl

evaluates_so : (evaluate_proposal id (pos 2) (pos 0) g3).0 ≡ ok (evaluation (pos 2) (pos 0) p3)
unfolding new after created create_proposal cast_vote assert_member get_proposal replace_vote
    seconds evaluate_proposal add_all set show_number
evaluates_so = refl

approves : (evaluation (pos 2) (pos 0) p3).is_approved ≡ true
unfolding evaluation created sum_votes ◌+ℤ◌
approves = refl

approved_by_voters_example :
    (pos 2 ≤ℤ pos (length (for_choice for p3.votes)))
    × (length (for_choice against p3.votes) < length (for_choice for p3.votes))
    × ((voter : String) → votes_of voter p3.votes ≤ 1)
    × (pos 0 ≤ℤ pos (length p3.feedback))
approved_by_voters_example =
    approved_by_voters id (pos 2) (pos 0) p3 (evaluation (pos 2) (pos 0) p3) reached stored
      evaluates_so approves

vote_replaces_test :
    (p' : GovernanceProposal String) × ((cast_vote 8000 id "bob" against none (write id p3 g0)).0
      ≡ ok p')
    × (votes_from "bob" p'.votes
        ≡ record {
          voter = "bob";
          choice = against;
          weight = pos 1;
          reason = none;
          timestamp = pos 8;
        }
          ∷ [])
    × ((w : String) → ("bob" == w) ≡ false → votes_from w p'.votes ≡ votes_from w p3.votes)
unfolding new seconds add_all set
vote_replaces_test = vote_replaces 8000 id "bob" against none (write id p3 g0) p3 refl refl

-- The proposal when it has been executed.
abbrev p4 : GovernanceProposal String
p4 = record p3 { status = executed; executed_at = some (pos 70) }

mark_exactly_test :
    let p = record p3 { status = approved } in
    let p' = record p { status = executed; executed_at = some (seconds 70000) } in
    (mark_executed 70000 id (write id p g0) ≡ (ok p', write id p' (write id p g0)))
    ↔ ((approved ≡ approved) × (leb_ℤ p.executable_at (seconds 70000) ≡ true))
unfolding new set
mark_exactly_test =
    mark_exactly 70000 id (write id (record p3 { status = approved }) g0)
      (record p3 { status = approved }) refl

executed_again_example :
    (mark_executed 80000 id (evaluate_proposal id (pos 2) (pos 0) (write id p4 g0)).1).0
    ≡ ok (record p4 { status = executed; executed_at = some (pos 80) })
unfolding new seconds created evaluation sum_votes ◌+ℤ◌ set
executed_again_example =
    executed_again 80000 id (pos 2) (pos 0) (write id p4 g0) p4 refl refl refl refl
