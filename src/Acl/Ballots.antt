-- ===== src/Acl/Ballots.antt =====
-- The votes of one proposal: at most one of each voter, and each of weight 1.
use current_dao_contracts.Base.{
  ⊤, ℕ, ◌+◌, ◌≤◌, length, ℤ, pos, int_laws, ◌≡◌, refl, inl, inr, String, ◌==◌, eq_iff, true, false,
  not, Option, List, [], ◌∷◌, ◌++◌, filter, arith, Bool-cases,
}
use mathlib.Core.Path.{subst}
use current_dao_contracts.Acl.Defs.{
  GovernanceVoteChoice, GovernanceVote, same_choice, sum_votes, replace_vote, non_empty,
}

-- The number of votes of one voter.
unfoldable pub votes_of : String → List GovernanceVote → ℕ
votes_of voter vs = length (filter (λ (v : GovernanceVote). v.voter == voter) vs)

abbrev pub AllWeighOne : List GovernanceVote → Type 0
AllWeighOne [] = ⊤
AllWeighOne (v ∷ vs) = (v.weight ≡ pos 1) × AllWeighOne vs

-- At most one vote of each voter, each of weight 1.
abbrev pub IsBallot : List GovernanceVote → Type 0
IsBallot vs = ((voter : String) → votes_of voter vs ≤ 1) × AllWeighOne vs

abbrev others : String → List GovernanceVote → List GovernanceVote
others voter vs = filter (λ (v : GovernanceVote). not (v.voter == voter)) vs

others-AllWeighOne :
    (voter : String) (vs : List GovernanceVote) → AllWeighOne vs → AllWeighOne (others voter vs)
others-AllWeighOne voter [] _ = tt
others-AllWeighOne voter (v ∷ vs) (one, h) = elim (Bool-cases (v.voter == voter)) [
  | inl same ↦ rw same (others-AllWeighOne voter vs h)
  | inr other ↦ rw other (one, others-AllWeighOne voter vs h)
]

others_self : (voter : String) (vs : List GovernanceVote) → votes_of voter (others voter vs) ≡ 0
unfolding votes_of
others_self voter [] = refl
others_self voter (v ∷ vs) = elim (Bool-cases (v.voter == voter)) [
  | inl same ↦ rw same (others_self voter vs)
  | inr other ↦ rw (other, other) (others_self voter vs)
]

others_le :
    (voter w : String) (vs : List GovernanceVote) → votes_of w (others voter vs) ≤ votes_of w vs
unfolding votes_of
others_le voter w [] = omega arith
others_le voter w (v ∷ vs) = let h = others_le voter w vs in ground arith

votes_of-append :
    (w : String) (vs us : List GovernanceVote)
    → votes_of w (vs ++ us) ≡ votes_of w vs + votes_of w us
unfolding votes_of
votes_of-append w [] us = omega arith
votes_of-append w (v ∷ vs) us = let h = votes_of-append w vs us in ground arith

AllWeighOne-append :
    (vs us : List GovernanceVote) → AllWeighOne vs → AllWeighOne us → AllWeighOne (vs ++ us)
AllWeighOne-append [] us _ h = h
AllWeighOne-append (v ∷ vs) us (one, t) h = (one, AllWeighOne-append vs us t h)

last_one :
    (w : String) (v : GovernanceVote) {n : ℕ}
    → n ≡ 0
    → (v.voter == w) ≡ true
    → n + votes_of w (v ∷ []) ≤ 1
unfolding votes_of
last_one w v no_vote same = ground arith

last_none :
    (w : String) (v : GovernanceVote) (vs : List GovernanceVote)
    → (v.voter == w) ≡ false
    → votes_of w vs ≤ 1
    → votes_of w vs + votes_of w (v ∷ []) ≤ 1
unfolding votes_of
last_none w v vs other few = ground arith

pub replace_vote-IsBallot :
    (now : ℤ) (voter : String) (choice : GovernanceVoteChoice) (reason : Option String)
    (vs : List GovernanceVote)
    → IsBallot vs
    → IsBallot (replace_vote now voter choice reason vs)
unfolding replace_vote
replace_vote-IsBallot now voter choice reason vs (once, ones) =
    let vote : GovernanceVote = record {
      voter = voter;
      choice = choice;
      weight = pos 1;
      reason = non_empty reason;
      timestamp = now;
    } in
    (
      λ w.
          let whole : votes_of w (replace_vote now voter choice reason vs)
              ≡ votes_of w (others voter vs) + votes_of w (vote ∷ []) =
            votes_of-append w (others voter vs) (vote ∷ []) in
          rw whole (elim (Bool-cases (voter == w)) [
            | inl same ↦
                let k : votes_of w (others voter vs) ≡ 0 =
                  subst (λ x. votes_of x (others voter vs) ≡ 0) ((eq_iff voter w).0 same)
                    (others_self voter vs) in
                last_one w vote k same
            | inr other ↦
                let h = others_le voter w vs in
                let h' = once w in last_none w vote (others voter vs) other (omega arith)
          ]),
      AllWeighOne-append (others voter vs) (vote ∷ []) (others-AllWeighOne voter vs ones)
          (refl, tt),
    )

-- The votes for one choice.
abbrev pub for_choice : GovernanceVoteChoice → List GovernanceVote → List GovernanceVote
for_choice choice vs = filter (λ (v : GovernanceVote). same_choice v.choice choice) vs

pub sum_votes-counts :
    (choice : GovernanceVoteChoice) (vs : List GovernanceVote)
    → AllWeighOne vs
    → sum_votes choice vs ≡ pos (length (for_choice choice vs))
unfolding sum_votes
sum_votes-counts choice [] _ = refl
sum_votes-counts choice (v ∷ vs) (one, ones) =
    let rest = sum_votes-counts choice vs ones in
    elim (Bool-cases (same_choice v.choice choice)) [
      | inl counted ↦ rw (counted, one, rest) (omega int_laws)
      | inr other ↦ rw other rest
    ]
