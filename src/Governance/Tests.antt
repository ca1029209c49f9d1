-- ===== src/Governance/Tests.antt =====
-- A vote of three holders, and the theorems at it.
use current_dao_contracts.Base.{
  ℕ, ◌+◌, ◌*◌, ◌≤◌, ◌<◌, pos, ◌+ℤ◌, ◌*ℤ◌, ◌≡◌, ◌≢◌, refl, String, ◌==◌, true, false, some, [], ◌∷◌,
  arith, eq_iff, get, set, ok, throws, if◌then◌else◌,
}
use current_dao_contracts.Token.{Token, balance_of}
use current_dao_contracts.Governance.Defs.{
  Governance, Proposal, active, executed, new, set_quorum, propose, generate_proposal_id, proposed,
  delegate, cast_vote, execute, total_balance, get_voting_power, receipts_of, receipt_for, tally,
}
use current_dao_contracts.Governance.Power.{
  delegators_of, sum_of_balances, power_root, delegation_adds, delegated_counts_twice,
}
use current_dao_contracts.Governance.Methods.{
  sets_quorum, proposes, casts, executes, cancels, after, Reach, start, step,
}
use current_dao_contracts.Governance.Votes.{Agrees, votes_tallied}
use current_dao_contracts.Governance.Lifecycle.{can_execute, execute_exactly, settled_stays}

abbrev token : Token
token = record {
  total_supply = pos 600;
  balances = ("ann", pos 400) ∷ ("bob", pos 150) ∷ ("cyd", pos 50) ∷ [];
  allowances = [];
  admin = "root";
  minters = [];
  burners = [];
  paused = false;
  events = [];
}

abbrev g0 : Governance
g0 = new token "root"

abbrev g1 : Governance
g1 = after (pos 0) "root" (sets_quorum (pos 30)) g0

abbrev g2 : Governance
g2 = after (pos 0) "ann" (proposes [] [] [] "raise the fee") g1

abbrev id : String
id = "PROPOSAL_ann_0_0"

abbrev g3 : Governance
g3 = after (pos 1000) "ann" (casts id (pos 1)) g2

abbrev g4 : Governance
g4 = after (pos 2000) "bob" (casts id (pos 0)) g3

reached : Reach g4
reached = step (pos 2000) "bob" (casts id (pos 0)) (
    step (pos 1000) "ann" (casts id (pos 1)) (
      step (pos 0) "ann" (proposes [] [] [] "raise the fee")
        (step (pos 0) "root" (sets_quorum (pos 30)) (start token "root"))))

abbrev p : Proposal
p = record {
  id = id;
  proposer = "ann";
  description = "raise the fee";
  targets = [];
  values = [];
  calldatas = [];
  start_time = pos 0;
  end_time = pos 86401000;
  vote_start = pos 1000;
  vote_end = pos 86401000;
  status = active;
  for_votes = pos 20;
  against_votes = pos 12;
  abstain_votes = pos 0;
  is_executed = false;
  is_canceled = false;
  quorum = pos 30;
}

voted : get id g4.proposals ≡ some p
unfolding after new set_quorum propose generate_proposal_id proposed cast_vote get_voting_power
    balance_of set ◌+ℤ◌ ◌*ℤ◌ tally receipt_for
voted = refl

power_root_example :
    ((r : ℕ) × (get_voting_power "bob" g0 ≡ pos r) × (r * r ≤ 150) × (150 < (r + 1) * (r + 1)))
    × ((r : ℕ) × (get_voting_power "bob" (delegate "bob" "ann" g0).1 ≡ pos r)
        × (r * r ≤ 150 + 400)
        × (150 + 400 < (r + 1) * (r + 1)))
unfolding new delegators_of sum_of_balances balance_of ◌+ℤ◌
power_root_example = power_root "bob" "ann" 150 400 g0 refl refl refl

delegation_adds_test : total_balance "bob" (delegate "bob" "ann" g0).1 ≡ (
    if "bob" == "bob"
    then total_balance "bob" g0 +ℤ balance_of "ann" g0.token
    else total_balance "bob" g0)
unfolding new
delegation_adds_test = delegation_adds "ann" "bob" "bob" g0 refl

ann_ne_bob : ◌≢◌ {A = String} "ann" "bob"
ann_ne_bob = ground (arith, eq_iff "ann" "bob")

delegated_counts_twice_test :
    let moved = (delegate "bob" "ann" g0).1 in
    let looped = (delegate "ann" "ann" g0).1 in
    (total_balance "ann" moved +ℤ total_balance "bob" moved
      ≡ total_balance "ann" g0 +ℤ total_balance "bob" g0 +ℤ balance_of "ann" g0.token)
    × (total_balance "ann" looped ≡ total_balance "ann" g0 +ℤ balance_of "ann" g0.token)
unfolding new
delegated_counts_twice_test = delegated_counts_twice "ann" "bob" g0 refl ann_ne_bob

votes_tallied_example : Agrees p (receipts_of id g4)
votes_tallied_example = votes_tallied id p reached voted

execute_exactly_example : (execute (pos 300000000) id "eve" g4).0 ≡ (
    if can_execute (pos 300000000) p (receipts_of id g4) g4
    then ok tt
    else throws "Governance: proposal not queued for execution")
execute_exactly_example = execute_exactly (pos 300000000) id "eve" g4 p reached voted

abbrev g5 : Governance
g5 = after (pos 300000000) "eve" (executes id) g4

ended : get id g5.proposals ≡ some (record p { status = executed; is_executed = true })
unfolding after new set_quorum propose generate_proposal_id proposed cast_vote execute
    get_voting_power balance_of set ◌+ℤ◌ ◌*ℤ◌ tally receipt_for
ended = refl

settled_stays_example :
    get id (after (pos 300000001) "ann" (cancels id) g5).proposals
    ≡ some (record p { status = executed; is_executed = true })
settled_stays_example =
    settled_stays (pos 300000001) "ann" id (cancels id) g5
      (record p { status = executed; is_executed = true })
      (step (pos 300000000) "eve" (executes id) reached) ended (λ e. cc e) tt
