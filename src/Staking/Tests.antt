-- ===== src/Staking/Tests.antt =====
-- An open proposal, and the theorems at it.
use current_dao_contracts.Base.{
  ◌+◌, ◌*◌, ◌≤◌, ◌<◌, ℤ, pos, ◌+ℤ◌, ◌<ℤ◌, ◌≡◌, ◌↔◌, ◌⊎◌, refl, String, true, false, some, [], ◌∷◌,
  ◌++◌, find, put, ok, throws, arith,
}
use current_dao_contracts.Staking.Defs.{Proposal, PoolGovernance, new, propose, vote, execute}
use current_dao_contracts.Staking.Votes.{passes_exactly, one_account_decides}

abbrev g : PoolGovernance
g = (propose (pos 0) (pos 7) "rate" (pos 3) "ann" (new (pos 1000))).1

abbrev p : Proposal
p = record {
  proposal_id = 1;
  pool_id = pos 7;
  param_key = "rate";
  new_value = pos 3;
  proposer = "ann";
  votes_for = pos 0;
  votes_against = pos 0;
  executed = false;
  deadline = pos 604800;
}

stored : find 1 g.proposals ≡ some p
unfolding new propose put ◌+ℤ◌
stored = refl

-- With 90 of 150 votes and a total weight of 1000 both tests pass.
abbrev p9 : Proposal
p9 = record p { votes_for = pos 90; votes_against = pos 60 }

abbrev g9 : PoolGovernance
g9 = record g { proposals = put 1 p9 g.proposals }

stored9 : find 1 g9.proposals ≡ some p9
unfolding new propose put ◌+ℤ◌
stored9 = refl

passes_exactly_example :
    let (r, h) = execute (pos 700000) 1 g9 in
    ((r ≡ ok tt) ↔ (
      (pos 604800 <ℤ pos 700000)
      × (false ≡ false)
      × (1000 ≤ 10 * (90 + 60))
      × ((90 + 60 ≡ 0) ⊎ (5001 * (90 + 60) < 10000 * 90))))
    × (r ≡ ok tt
        → h ≡ record g9 {
          proposals = put 1 (record p9 { executed = true }) g9.proposals;
          announced =
              g9.announced
              ++ (record { pool_id = pos 7; param_key = "rate"; new_value = pos 3 } ∷ []);
        })
    × ((e : String) → r ≡ throws e → h ≡ g9)
unfolding new propose
passes_exactly_example = passes_exactly (pos 700000) 1 g9 p9 90 60 1000 stored9 refl refl refl

-- A proposal with 50.005 of a hundred votes is not executed.
half_test :
    (execute (pos 700000) 1 (record g {
      proposals = put 1 (record p { votes_for = pos 10001; votes_against = pos 9999 }) g.proposals;
    })).0
    ≡ throws "Proposal did not pass"
unfolding new propose execute put ◌+ℤ◌
half_test = refl

one_account_decides_example :
    (weight : ℤ) × ((vote (pos 5) 1 "eve" true weight g).0 ≡ ok tt)
    × ((execute (pos 700000) 1 (vote (pos 5) 1 "eve" true weight g).1).0 ≡ ok tt)
one_account_decides_example =
    one_account_decides (pos 5) (pos 700000) 1 "eve" g p stored refl (omega arith) (omega arith)
      (omega arith) (omega arith)

-- A proposal without any vote is executed where the total weight is 0.
unvoted_test :
    (execute (pos 700000) 1 (propose (pos 0) (pos 7) "rate" (pos 3) "ann" (new (pos 0))).1).0
    ≡ ok tt
unfolding new propose execute put ◌+ℤ◌
unvoted_test = refl
