-- ===== src/Governance/Votes.antt =====
-- The counters of a proposal are the sums of the receipts' weights, and no account votes twice.
use current_dao_contracts.Base.{
  ℤ, pos, ◌+ℤ◌, eqb_ℤ, int_laws, ◌≡◌, ◌≢◌, refl, sym, ◌∙◌, String, ◌==◌, true, none, some, List, [],
  ◌∷◌, arith, eq_iff, Dict, get, set, get-set_self, get-set_ne, IsKeyed, set-IsKeyed, if◌then◌else◌,
  Bool-cases, Option-cases, inl, inr,
}
use mathlib.Core.Path.{subst}
use current_dao_contracts.Governance.Defs.{
  Governance, Proposal, VoteReceipt, executed, canceled, new, set_quorum, set_voting_period,
  generate_proposal_id, proposed, propose, delegate, receipts_of, tally, receipt_for,
  get_voting_power, cast_vote, execute, cancel,
}
use current_dao_contracts.Governance.Methods.{
  Method, sets_quorum, sets_voting_period, proposes, delegates_to, casts, executes, cancels,
  token_becomes, after, Reach, start, step, write, cast_writes, execute_writes, cancel_writes,
  propose_writes, absent_unchanged,
}

-- The weights of the receipts for one choice, summed.
unfoldable pub weight_for : ℤ → Dict VoteReceipt → ℤ
weight_for choice [] = pos 0
weight_for choice ((voter, r) ∷ m) =
    weight_for choice m +ℤ (if eqb_ℤ r.support choice then r.weight else pos 0)

weight_for-set_new :
    (choice : ℤ) (voter : String) (r : VoteReceipt) (m : Dict VoteReceipt)
    → get voter m ≡ none
    → weight_for choice (set voter r m)
      ≡ weight_for choice m +ℤ (if eqb_ℤ r.support choice then r.weight else pos 0)
unfolding weight_for set
weight_for-set_new choice voter r [] h = refl
weight_for-set_new choice voter r ((j, q) ∷ m) h = elim (Bool-cases (j == voter)) [
  | inl same ↦ ground arith
  | inr other ↦ rw other (rw (weight_for-set_new choice voter r m (ground arith)) (omega int_laws))
]

-- The counters of a proposal agree with a table of receipts.
abbrev pub Agrees : Proposal → Dict VoteReceipt → Type 0
Agrees p m =
    IsKeyed m
    × (p.for_votes ≡ weight_for (pos 1) m)
    × (p.against_votes ≡ weight_for (pos 0) m)
    × (p.abstain_votes ≡ weight_for (pos 2) m)

abbrev pub IsTallied : Governance → Type 0
IsTallied g =
    (id : String) (p : Proposal) → get id g.proposals ≡ some p → Agrees p (receipts_of id g)

plus_zero : (a : ℤ) → a +ℤ pos 0 ≡ a
plus_zero a = omega int_laws

tally_counts :
    (support weight : ℤ) (p : Proposal)
    → let p' = tally support weight p in
      let counted = λ (choice : ℤ). if eqb_ℤ support choice then weight else pos 0 in
      (p'.for_votes ≡ p.for_votes +ℤ counted (pos 1))
      × (p'.against_votes ≡ p.against_votes +ℤ counted (pos 0))
      × (p'.abstain_votes ≡ p.abstain_votes +ℤ counted (pos 2))
unfolding tally
tally_counts support weight p =
    ground (arith, plus_zero p.for_votes, plus_zero p.against_votes, plus_zero p.abstain_votes)

tally-Agrees :
    (support weight : ℤ) (voter : String) (p : Proposal) (m : Dict VoteReceipt)
    → get voter m ≡ none
    → Agrees p m
    → Agrees (tally support weight p) (set voter (receipt_for support weight) m)
unfolding receipt_for
tally-Agrees support weight voter p m fresh (keyed, f, a, b) =
    let r = receipt_for support weight in
    let (cf, ca, cb) = tally_counts support weight p in
    (
      set-IsKeyed voter r m keyed,
      cc (cf, f, weight_for-set_new (pos 1) voter r m fresh),
      cc (ca, a, weight_for-set_new (pos 0) voter r m fresh),
      cc (cb, b, weight_for-set_new (pos 2) voter r m fresh),
    )

write-IsTallied :
    (key : String) (p : Proposal) (m : Dict VoteReceipt) (g : Governance)
    → IsTallied g
    → Agrees p m
    → IsTallied (write key p m g)
write-IsTallied key p m g h agrees id p' e = elim (Bool-cases (key == id)) [
  | inl here ↦
      let k : key ≡ id = (eq_iff key id).0 here in
      let t : p ≡ p' = cc (e, k, get-set_self id p g.proposals) in
      rw (k, get-set_self id m g.receipts) (subst (λ q. Agrees q m) t agrees)
  | inr elsewhere ↦
      let apart : key ≢ id = λ k. cc (elsewhere, (eq_iff key id).1 k) in
      rw (get-set_ne key id m g.receipts apart)
        (h id p' (sym (get-set_ne key id p g.proposals apart) ∙ e))
]

-- A write to a stored proposal that leaves its counters alone.
mark-IsTallied :
    (key : String) (p marked : Proposal) (g : Governance)
    → get key g.proposals ≡ some p
    → (marked.for_votes ≡ p.for_votes)
      × (marked.against_votes ≡ p.against_votes)
      × (marked.abstain_votes ≡ p.abstain_votes)
    → IsTallied g
    → IsTallied (record g { proposals = set key marked g.proposals })
mark-IsTallied key p marked g at (f, a, b) h id p' e = elim (Bool-cases (key == id)) [
  | inl here ↦
      let k : key ≡ id = (eq_iff key id).0 here in
      let t : marked ≡ p' = cc (e, k, get-set_self id marked g.proposals) in
      let (keyed, f', a', b') = h id p (cc (k, at)) in
      subst (λ q. Agrees q (receipts_of id g)) t (keyed, f ∙ f', a ∙ a', b ∙ b')
  | inr elsewhere ↦
      let apart : key ≢ id = λ k. cc (elsewhere, (eq_iff key id).1 k) in
      h id p' (sym (get-set_ne key id marked g.proposals apart) ∙ e)
]

cast-IsTallied :
    (now : ℤ) (id : String) (support : ℤ) (voter : String) (g : Governance)
    → IsTallied g
    → IsTallied (cast_vote now id support voter g).1
cast-IsTallied now id support voter g h = elim (Option-cases (get id g.proposals)) [
  | inl absent ↦ subst IsTallied (sym (absent_unchanged now id support voter g absent).0) h
  | inr (p, at) ↦ elim (cast_writes now id support voter g p at) [
    | inl same ↦ subst IsTallied (sym same) h
    | inr (fresh, wrote) ↦
        let w = get_voting_power voter g in
        let m = receipts_of id g in
        subst IsTallied (sym wrote) (
          write-IsTallied id (tally support w p) (set voter (receipt_for support w) m) g h
            (tally-Agrees support w voter p m fresh (h id p at)))
  ]
]

execute-IsTallied :
    (now : ℤ) (id caller : String) (g : Governance)
    → IsTallied g
    → IsTallied (execute now id caller g).1
execute-IsTallied now id caller g h = elim (Option-cases (get id g.proposals)) [
  | inl absent ↦ subst IsTallied (sym (absent_unchanged now id (pos 0) caller g absent).1) h
  | inr (p, at) ↦ elim (execute_writes now id caller g p at) [
    | inl same ↦ subst IsTallied (sym same) h
    | inr (_, wrote) ↦ subst IsTallied (sym wrote) (
        mark-IsTallied id p (record p { status = executed; is_executed = true }) g at
          (refl, refl, refl) h)
  ]
]

cancel-IsTallied :
    (id caller : String) (g : Governance) → IsTallied g → IsTallied (cancel id caller g).1
cancel-IsTallied id caller g h = elim (Option-cases (get id g.proposals)) [
  | inl absent ↦ subst IsTallied (sym (absent_unchanged (pos 0) id (pos 0) caller g absent).2) h
  | inr (p, at) ↦ elim (cancel_writes id caller g p at) [
    | inl same ↦ subst IsTallied (sym same) h
    | inr (_, _, wrote) ↦ subst IsTallied (sym wrote) (
        mark-IsTallied id p (record p { status = canceled; is_canceled = true }) g at
          (refl, refl, refl) h)
  ]
]

propose-IsTallied :
    (now : ℤ) (targets : List String) (values : List ℤ) (calldatas : List String)
    (description proposer : String) (g : Governance)
    → IsTallied g
    → IsTallied (propose now targets values calldatas description proposer g).1
unfolding proposed weight_for
propose-IsTallied now targets values calldatas description proposer g h =
    let id = generate_proposal_id now proposer description g.proposal_count in
    elim (propose_writes now targets values calldatas description proposer g) [
      | inl same ↦ subst IsTallied (sym same) h
      | inr wrote ↦ subst IsTallied (sym wrote) (
          write-IsTallied id (proposed now id targets values calldatas description proposer g) []
            (record g { proposal_count = g.proposal_count +ℤ pos 1 }) h (tt, refl, refl, refl))
    ]

tables-IsTallied :
    (g g' : Governance)
    → (g'.proposals ≡ g.proposals) × (g'.receipts ≡ g.receipts)
    → IsTallied g
    → IsTallied g'
tables-IsTallied g g' (t, c) h id p e = rw c (h id p (subst (λ m. get id m ≡ some p) t e))

after-IsTallied :
    (now : ℤ) (caller : String) (m : Method) (g : Governance)
    → IsTallied g
    → IsTallied (after now caller m g)
unfolding after set_quorum set_voting_period delegate
after-IsTallied now caller (sets_quorum n) g h =
    tables-IsTallied g (after now caller (sets_quorum n) g) (ground arith) h
after-IsTallied now caller (sets_voting_period n) g h =
    tables-IsTallied g (after now caller (sets_voting_period n) g) (ground arith) h
after-IsTallied now caller (proposes targets values calldatas description) g h =
    propose-IsTallied now targets values calldatas description caller g h
after-IsTallied now caller (delegates_to delegatee) g h =
    tables-IsTallied g (after now caller (delegates_to delegatee) g) (refl, refl) h
after-IsTallied now caller (casts id support) g h = cast-IsTallied now id support caller g h
after-IsTallied now caller (executes id) g h = execute-IsTallied now id caller g h
after-IsTallied now caller (cancels id) g h = cancel-IsTallied id caller g h
after-IsTallied now caller (token_becomes token) g h =
    tables-IsTallied g (record g { token = token }) (refl, refl) h

-- In every contract that calls lead to, whatever happens to the token: the counters of a proposal are
-- the sums of the weights of its receipts for, against and abstaining, and each account has at most
-- one receipt.
pub votes_tallied :
    {g : Governance} (id : String) (p : Proposal)
    → Reach g
    → get id g.proposals ≡ some p
    → Agrees p (receipts_of id g)
unfolding new
votes_tallied id p (start token owner) e = cc e
votes_tallied id p (step {g} now caller m r) e =
    after-IsTallied now caller m g (λ i q. votes_tallied i q r) id p e
