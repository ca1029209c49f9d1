-- ===== src/Staking/Votes.antt =====
-- When a proposal of a pool is executed.
use current_dao_contracts.Base.{
  ℕ, ◌+◌, ◌*◌, ◌≤◌, ◌<◌, ℤ, pos, pos_part, ◌+ℤ◌, ◌≤ℤ◌, ◌<ℤ◌, +ℤ_parts, String, true, false, some,
  [], ◌∷◌, ◌++◌, find, put, find-put, ◌≡◌, ◌↔◌, ◌⊎◌, arith, ok, throws,
}
use current_dao_contracts.Staking.Defs.{
  Proposal, PoolGovernance, vote, total_votes, misses_quorum, fails, execute,
}

-- The two tests at votes and at a total weight that are not negative.
tests_natural :
    (g : PoolGovernance) (p : Proposal) (supporting against weight : ℕ)
    → p.votes_for ≡ pos supporting
    → p.votes_against ≡ pos against
    → g.total_voting_weight ≡ pos weight
    → ((misses_quorum (total_votes p) g.total_voting_weight ≡ false)
        ↔ (weight ≤ 10 * (supporting + against)))
      × ((fails p.votes_for (total_votes p) ≡ false)
          ↔ ((supporting + against ≡ 0) ⊎ (5001 * (supporting + against) < 10000 * supporting)))
unfolding ◌+ℤ◌
tests_natural g p supporting against weight for_ against_ total =
    let votes : total_votes p ≡ pos (supporting + against) = rw (for_, against_) (ground arith) in
    rw (votes, for_, total)
      ((λ h. ground arith, λ h. ground arith), (λ h. ground arith, λ h. ground arith))

-- A call executes a stored proposal, whose votes and whose total weight are not negative, exactly when
-- its deadline has passed, it was not executed, ten times its votes reach the total weight, and it has
-- no votes at all or the votes for it are more than 5001 of 10000; then its change, and no other, is
-- announced and it is marked. A call that throws changes nothing.
pub passes_exactly :
    (now : ℤ) (id : ℕ) (g : PoolGovernance) (p : Proposal) (supporting against weight : ℕ)
    → find id g.proposals ≡ some p
    → p.votes_for ≡ pos supporting
    → p.votes_against ≡ pos against
    → g.total_voting_weight ≡ pos weight
    → let (r, h) = execute now id g in
      ((r ≡ ok tt) ↔ (
        (p.deadline <ℤ now)
        × (p.executed ≡ false)
        × (weight ≤ 10 * (supporting + against))
        × ((supporting + against ≡ 0) ⊎ (5001 * (supporting + against) < 10000 * supporting))))
      × (r ≡ ok tt
          → h ≡ record g {
            proposals = put id (record p { executed = true }) g.proposals;
            announced =
                g.announced
                ++ (record { pool_id = p.pool_id; param_key = p.param_key; new_value = p.new_value }
                    ∷ []);
          })
      × ((e : String) → r ≡ throws e → h ≡ g)
unfolding execute ◌+ℤ◌
passes_exactly now id g p supporting against weight at for_ against_ total =
    let (quorum, majority) = tests_natural g p supporting against weight for_ against_ total in
    ((λ done. ground arith, λ h. ground arith), λ done. ground arith, λ e threw. ground arith)

-- Any account decides alone: whatever the votes on an open proposal are, one call by any voter, of
-- some weight, makes the proposal one that is executed after the deadline.
pub one_account_decides :
    (now later : ℤ) (id : ℕ) (voter : String) (g : PoolGovernance) (p : Proposal)
    → find id g.proposals ≡ some p
    → p.executed ≡ false
    → now ≤ℤ p.deadline
    → p.deadline <ℤ later
    → pos 0 ≤ℤ p.votes_for
    → pos 0 ≤ℤ p.votes_against
    → (weight : ℤ) × ((vote now id voter true weight g).0 ≡ ok tt)
      × ((execute later id (vote now id voter true weight g).1).0 ≡ ok tt)
unfolding vote execute
one_account_decides now later id voter g p at open_ in_time over supporting against =
    let w = pos (
      2 * pos_part p.votes_for
      + 2 * pos_part p.votes_against
      + pos_part g.total_voting_weight
      + 1) in
    let q = record p { votes_for = p.votes_for +ℤ w } in
    let stored = find-put id id q g.proposals in
    let sum = +ℤ_parts p.votes_for w in
    let total = +ℤ_parts q.votes_for p.votes_against in (w, ground arith, ground arith)
