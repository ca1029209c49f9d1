-- ===== src/Governance/Power.antt =====
-- Voting power: the root of the voter's balance and of what is delegated to the voter.
use current_dao_contracts.Base.{
  ℕ, zero, suc, ◌+◌, ◌*◌, ◌≤◌, ◌<◌, ℤ, pos, ◌+ℤ◌, int_laws, ◌≡◌, ◌≢◌, refl, sym, ◌∙◌, ap, String,
  ◌==◌, none, List, [], ◌∷◌, arith, eq_iff, Dict, get, set, if◌then◌else◌, Bool-cases, inl, inr,
}
use current_dao_contracts.Token.{Token, balance_of}
use current_dao_contracts.Governance.Defs.{
  Governance, floor_sqrt, add_delegated, total_balance, get_voting_power, delegate,
}

floor_sqrt_bounds : (n : ℕ) → let r = floor_sqrt n in (r * r ≤ n) × (n < (r + 1) * (r + 1))
unfolding floor_sqrt
floor_sqrt_bounds zero = omega arith
floor_sqrt_bounds (suc n) = ground (arith, floor_sqrt_bounds n)

pos-add : (n k : ℕ) → pos n +ℤ pos k ≡ pos (n + k)
pos-add n k = omega int_laws

swap_last : (a b c : ℤ) → a +ℤ b +ℤ c ≡ a +ℤ c +ℤ b
swap_last a b c = omega int_laws

regroup : (a b c : ℤ) → a +ℤ (b +ℤ c) ≡ a +ℤ b +ℤ c
regroup a b c = omega int_laws

add_delegated_shift :
    (token : Token) (account : String) (m : Dict String) (total x : ℤ)
    → add_delegated token account m (total +ℤ x) ≡ add_delegated token account m total +ℤ x
unfolding add_delegated
add_delegated_shift token account [] total x = refl
add_delegated_shift token account ((d, e) ∷ m) total x = elim (Bool-cases (e == account)) [
  | inl to_them ↦ rw to_them (
      ap (add_delegated token account m) (swap_last total x (balance_of d token))
      ∙ add_delegated_shift token account m (total +ℤ balance_of d token) x)
  | inr to_other ↦ rw to_other (add_delegated_shift token account m total x)
]

-- A first delegation stands last in the table, so it is added last.
add_delegated-set_new :
    (token : Token) (account delegator delegatee : String) (m : Dict String) (total : ℤ)
    → get delegator m ≡ none
    → add_delegated token account (set delegator delegatee m) total ≡ (
        if delegatee == account
        then add_delegated token account m total +ℤ balance_of delegator token
        else add_delegated token account m total)
unfolding add_delegated set
add_delegated-set_new token account d e [] total h = ground arith
add_delegated-set_new token account d e ((d', e') ∷ m) total h = elim (Bool-cases (d' == d)) [
  | inl same ↦ ground arith
  | inr other ↦ rw other (
      add_delegated-set_new token account d e m
        (if e' == account then total +ℤ balance_of d' token else total) (ground arith))
]

-- An account that delegates for the first time adds its balance to what the chosen account stands
-- for, and nobody stands for less: the delegator still stands for its own balance, and an account
-- that delegates to itself stands for its balance twice.
pub delegation_adds :
    (delegator delegatee account : String) (g : Governance)
    → get delegator g.delegates ≡ none
    → total_balance account (delegate delegatee delegator g).1 ≡ (
        if delegatee == account
        then total_balance account g +ℤ balance_of delegator g.token
        else total_balance account g)
unfolding total_balance delegate
delegation_adds delegator delegatee account g h =
    add_delegated-set_new g.token account delegator delegatee g.delegates
      (balance_of account g.token) h

-- A balance that is delegated counts twice: after a first delegation from one account to another,
-- the two stand together for the delegator's balance more than before. An account that delegates to
-- itself does the same alone.
pub delegated_counts_twice :
    (delegator delegatee : String) (g : Governance)
    → get delegator g.delegates ≡ none
    → delegator ≢ delegatee
    → let moved = (delegate delegatee delegator g).1 in
      let looped = (delegate delegator delegator g).1 in
      (total_balance delegator moved +ℤ total_balance delegatee moved
        ≡ total_balance delegator g +ℤ total_balance delegatee g +ℤ balance_of delegator g.token)
      × (total_balance delegator looped ≡ total_balance delegator g +ℤ balance_of delegator g.token)
delegated_counts_twice delegator delegatee g h apart =
    let own : total_balance delegator (delegate delegatee delegator g).1
        ≡ total_balance delegator g =
      ground
        (arith, delegation_adds delegator delegatee delegator g h, eq_iff delegatee delegator) in
    let theirs : total_balance delegatee (delegate delegatee delegator g).1
        ≡ total_balance delegatee g +ℤ balance_of delegator g.token =
      ground
        (arith, delegation_adds delegator delegatee delegatee g h, eq_iff delegatee delegatee) in
    (
      rw (own, theirs) (regroup _ _ _),
      ground (arith, delegation_adds delegator delegator delegator g h, eq_iff delegator delegator),
    )

-- The accounts whose delegate is the account.
unfoldable pub delegators_of : String → Dict String → List String
delegators_of account [] = []
delegators_of account ((d, e) ∷ m) =
    let rest = delegators_of account m in if e == account then d ∷ rest else rest

unfoldable pub sum_of_balances : List String → Token → ℤ
sum_of_balances [] token = pos 0
sum_of_balances (d ∷ l) token = balance_of d token +ℤ sum_of_balances l token

add_delegated-sum :
    (token : Token) (account : String) (m : Dict String) (total : ℤ)
    → add_delegated token account m total ≡ total +ℤ sum_of_balances (delegators_of account m) token
unfolding add_delegated delegators_of sum_of_balances
add_delegated-sum token account [] total = omega int_laws
add_delegated-sum token account ((d, e) ∷ m) total = elim (Bool-cases (e == account)) [
  | inl to_them ↦ rw to_them (
      add_delegated-sum token account m (total +ℤ balance_of d token)
      ∙ sym (regroup total (balance_of d token) _))
  | inr to_other ↦ rw to_other (add_delegated-sum token account m total)
]

root_of :
    (account : String) (n : ℕ) (g : Governance)
    → total_balance account g ≡ pos n
    → (r : ℕ) × (get_voting_power account g ≡ pos r) × (r * r ≤ n) × (n < (r + 1) * (r + 1))
unfolding get_voting_power
root_of account n g e =
    let (low, high) = floor_sqrt_bounds n in (floor_sqrt n, ground arith, low, high)

-- Where the balances of an account and of all who delegate to it add up to n, the voting power of the
-- account is the whole part of the root of n; and after any account that delegates to nobody, whose
-- balance is k, delegates to it, the whole part of the root of n + k.
pub power_root :
    (account delegator : String) (n k : ℕ) (g : Governance)
    → sum_of_balances (account ∷ delegators_of account g.delegates) g.token ≡ pos n
    → get delegator g.delegates ≡ none
    → balance_of delegator g.token ≡ pos k
    → ((r : ℕ) × (get_voting_power account g ≡ pos r) × (r * r ≤ n) × (n < (r + 1) * (r + 1)))
      × ((r : ℕ) × (get_voting_power account (delegate account delegator g).1 ≡ pos r)
          × (r * r ≤ n + k)
          × (n + k < (r + 1) * (r + 1)))
unfolding total_balance sum_of_balances
power_root account delegator n k g adds_up free holds =
    let before : total_balance account g ≡ pos n =
      add_delegated-sum g.token account g.delegates (balance_of account g.token) ∙ adds_up in
    let more : total_balance account (delegate account delegator g).1
        ≡ total_balance account g +ℤ balance_of delegator g.token =
      ground (arith, delegation_adds delegator account account g free, eq_iff account account) in
    let after : total_balance account (delegate account delegator g).1 ≡ pos (n + k) =
      more ∙ rw (before, holds) (pos-add n k) in
    (root_of account n g before, root_of account (n + k) (delegate account delegator g).1 after)
