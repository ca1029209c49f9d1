-- ===== src/Staking/Defs.antt =====
-- PoolGovernance. `onExecute` is a function of its owner: `announced` lists the calls of it, which are
-- taken to return.
use current_dao_contracts.Base.{
  ℕ, zero, suc, ⊤, ◌+◌, ◌*◌, ℤ, pos, negsuc, pos_part, neg_part, ltb, leb, ◌+ℤ◌, ltb_ℤ, leb_ℤ,
  String, Bool, true, false, List, [], ◌∷◌, ◌++◌, Table, find, put, Call, pure, gets, or_throw,
  throw_if, modify, ◌>>=◌, ◌>>◌,
}

pub record Proposal : Type 0 where
  pub proposal_id : ℕ
  pub pool_id : ℤ
  pub param_key : String
  pub new_value : ℤ
  pub proposer : String
  pub votes_for : ℤ
  pub votes_against : ℤ
  pub executed : Bool
  pub deadline : ℤ

pub record Announcement : Type 0 where
  pub pool_id : ℤ
  pub param_key : String
  pub new_value : ℤ

pub record PoolGovernance : Type 0 where
  pub proposals : Table Proposal
  pub next_proposal_id : ℕ
  pub total_voting_weight : ℤ
  pub announced : List Announcement

unfoldable pub new : ℤ → PoolGovernance
new total_voting_weight = record {
  proposals = [];
  next_proposal_id = 1;
  total_voting_weight = total_voting_weight;
  announced = [];
}

-- The deadline is seven days, in seconds, from now.
unfoldable pub propose : ℤ → ℤ → String → ℤ → String → Call PoolGovernance ℕ
propose now pool_id param_key new_value proposer = do
  id ← gets (λ g. g.next_proposal_id)
  modify λ g. record g {
    next_proposal_id = suc g.next_proposal_id;
    proposals =
        put g.next_proposal_id
          (record {
            proposal_id = g.next_proposal_id;
            pool_id = pool_id;
            param_key = param_key;
            new_value = new_value;
            proposer = proposer;
            votes_for = pos 0;
            votes_against = pos 0;
            executed = false;
            deadline = now +ℤ pos 604800;
          })
          g.proposals;
  }
  pure id

abbrev pub voted : Bool → ℤ → Proposal → Proposal
voted true weight p = record p { votes_for = p.votes_for +ℤ weight }
voted false weight p = record p { votes_against = p.votes_against +ℤ weight }

-- The voter is not looked at.
unfoldable pub vote : ℤ → ℕ → String → Bool → ℤ → Call PoolGovernance ⊤
vote now proposal_id voter support weight = do
  found ← gets (λ g. find proposal_id g.proposals)
  p ← or_throw found "Proposal not found"
  throw_if (ltb_ℤ p.deadline now) "Voting period ended"
  throw_if p.executed "Proposal already executed"
  throw_if (leb_ℤ weight (pos 0)) "Vote weight must be positive"
  modify λ g. record g { proposals = put proposal_id (voted support weight p) g.proposals }

abbrev pub total_votes : Proposal → ℤ
total_votes p = p.votes_for +ℤ p.votes_against

abbrev quorum_bps : ℕ
quorum_bps = 1000

abbrev pass_threshold_bps : ℕ
pass_threshold_bps = 5001

-- `totalVotes < (weight * QUORUM_BPS) / 10000`, both sides times 10000.
abbrev pub misses_quorum : ℤ → ℤ → Bool
misses_quorum total weight =
    ltb (10000 * pos_part total + quorum_bps * neg_part weight)
      (quorum_bps * pos_part weight + 10000 * neg_part total)

-- `(votesFor / totalVotes) * 10000 <= PASS_THRESHOLD_BPS`, both sides times the total, whose sign turns
-- the comparison. At a total of 0 the quotient is NaN or infinite; only minus infinity is below the threshold. The quotient is exact here, where a double is rounded.
abbrev pub fails : ℤ → ℤ → Bool
fails supporting (pos zero) = ltb_ℤ supporting (pos 0)
fails supporting (pos (suc n)) =
    leb (10000 * pos_part supporting) (pass_threshold_bps * suc n + 10000 * neg_part supporting)
fails supporting (negsuc n) =
    leb (10000 * neg_part supporting) (10000 * pos_part supporting + pass_threshold_bps * suc n)

unfoldable pub execute : ℤ → ℕ → Call PoolGovernance ⊤
execute now proposal_id = do
  found ← gets (λ g. find proposal_id g.proposals)
  p ← or_throw found "Proposal not found"
  throw_if (leb_ℤ now p.deadline) "Voting period not ended"
  throw_if p.executed "Already executed"
  throw_if (← gets (λ g. misses_quorum (total_votes p) g.total_voting_weight)) "Quorum not reached"
  throw_if (fails p.votes_for (total_votes p)) "Proposal did not pass"
  modify λ g. record g {
    proposals = put proposal_id (record p { executed = true }) g.proposals;
    announced =
        g.announced
        ++ (record { pool_id = p.pool_id; param_key = p.param_key; new_value = p.new_value } ∷ []);
  }

unfoldable pub update_total_voting_weight : ℤ → PoolGovernance → PoolGovernance
update_total_voting_weight weight g = record g { total_voting_weight = weight }
