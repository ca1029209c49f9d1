-- ===== src/Token/Moves.antt =====
-- What a transfer and a burn do to single balances, for amounts of either sign.
use current_dao_contracts.Base.{
  ℤ, pos, negsuc, ℕ, suc, ◌+ℤ◌, ◌-ℤ◌, ◌≤ℤ◌, int_laws, +ℤ_parts, -ℤ_parts, ◌≡◌, sym, ◌≢◌, String,
  true, false, arith, ok, throws, set, get-set_ne, get-set_self, eq_iff,
}
use current_dao_contracts.Token.Defs.{Token, balance_of, burn, execute_transfer}
use current_dao_contracts.Token.Supply.{debited}

sub-negsuc : (a : ℤ) (n : ℕ) → a -ℤ negsuc n ≡ a +ℤ pos (suc n)
sub-negsuc a n = omega int_laws

module _ (now : ℤ) where
  -- Between two different accounts, an amount that is not negative and that the sender has moves
  -- from the one balance to the other; no third balance changes, nor does the supply.
  pub transfer_moves :
      (sender recipient other : String) (amount : ℤ) (t : Token)
      → t.paused ≡ false
      → sender ≢ ""
      → recipient ≢ ""
      → sender ≢ recipient
      → other ≢ sender
      → other ≢ recipient
      → pos 0 ≤ℤ amount
      → amount ≤ℤ balance_of sender t
      → let (r, t') = execute_transfer now sender recipient amount t in
        (r ≡ ok true)
        × (balance_of sender t' ≡ balance_of sender t -ℤ amount)
        × (balance_of recipient t' ≡ balance_of recipient t +ℤ amount)
        × (balance_of other t' ≡ balance_of other t)
        × (t'.total_supply ≡ t.total_supply)
  unfolding execute_transfer
  transfer_moves s r o a t live s_set r_set sr os or p q =
      let paid = balance_of s t -ℤ a in
      let m = set s paid t.balances in
      let received = balance_of r t +ℤ a in
      ground (
        arith,
        eq_iff s "",
        eq_iff r "",
        +ℤ_parts (balance_of r t) a,
        get-set_ne s r paid t.balances sr,
        get-set_ne s o paid t.balances (λ e. os (sym e)),
        get-set_self s paid t.balances,
        get-set_ne r s received m (λ e. sr (sym e)),
        get-set_ne r o received m (λ e. or (sym e)),
        get-set_self r received m,
      )

  -- An amount that is negative, -(n + 1), makes the call throw. The sender is credited all the same:
  -- the write to the sender's balance comes before the check that throws.
  pub negative_transfer_credits :
      (sender recipient : String) (n : ℕ) (t : Token)
      → t.paused ≡ false
      → sender ≢ ""
      → recipient ≢ ""
      → pos 0 ≤ℤ balance_of sender t
      → let (r, t') = execute_transfer now sender recipient (negsuc n) t in
        (r ≡ throws "SafeMath: addition overflow")
        × (balance_of sender t' ≡ balance_of sender t +ℤ pos (suc n))
        × (t'.total_supply ≡ t.total_supply)
  unfolding execute_transfer
  negative_transfer_credits s r n t live s_set r_set h =
      let paid = balance_of s t -ℤ negsuc n in
      ground (
        arith,
        eq_iff s "",
        eq_iff r "",
        sub-negsuc (balance_of s t) n,
        -ℤ_parts (balance_of s t) (negsuc n),
        +ℤ_parts (balance_of r (debited s (negsuc n) t)) (negsuc n),
        get-set_self s paid t.balances,
      )

  -- Who burns a negative amount of their own, -(n + 1), gains n + 1 tokens, and so does the supply.
  pub negative_burn_mints :
      (owner : String) (n : ℕ) (t : Token)
      → t.paused ≡ false
      → pos 0 ≤ℤ balance_of owner t
      → pos 0 ≤ℤ t.total_supply
      → let (r, t') = burn now owner owner (negsuc n) t in
        (r ≡ ok true)
        × (balance_of owner t' ≡ balance_of owner t +ℤ pos (suc n))
        × (t'.total_supply ≡ t.total_supply +ℤ pos (suc n))
  unfolding burn
  negative_burn_mints o n t live h hs =
      let paid = balance_of o t -ℤ negsuc n in
      ground (
        arith,
        eq_iff o o,
        sub-negsuc (balance_of o t) n,
        sub-negsuc t.total_supply n,
        get-set_self o paid t.balances,
      )
