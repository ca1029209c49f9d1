-- ===== src/Bridge/Backing.antt =====
-- The pool of an asset and the tokens that the bridge's account holds grow and shrink together.
use current_dao_contracts.Base.{
  ℤ, ◌+ℤ◌, ◌-ℤ◌, ◌≤ℤ◌, ◌≡◌, ◌≢◌, refl, String, true, some, arith, get, set, get-set_self, ok,
}
use current_dao_contracts.Bridge.Interface.{Erc20, IsErc20, SafeMath}
use current_dao_contracts.Bridge.Defs.{
  Bridge, BridgeTransaction, LiquidityPool, emit_event, when_not_paused, get_or_throw_token,
  initiate_bridge, check_slippage, calculate_fee, wrap_asset,
}

module _ {T : Type 0} ⦃token : Erc20 T⦄ where
  -- The address has this token and this pool.
  abbrev pub Holds : String → Bridge T → T → LiquidityPool → Type 0
  Holds address b t pool =
      (get address b.tokens ≡ some t) × (get address b.liquidity_pools ≡ some pool)

  -- What a wrap that returns has done.
  wrap_writes :
      (math : SafeMath) (now : ℤ) (caller destination address : String) (amount : ℤ)
      (recipient : String) (min_out : ℤ) (b : Bridge T) (t : T) (pool : LiquidityPool)
      (tx : BridgeTransaction)
      → Holds address b t pool
      → (wrap_asset math now caller destination address amount recipient min_out b).0 ≡ ok tx
      → let b' = (wrap_asset math now caller destination address amount recipient min_out b).1 in
        let moved = token.transfer_from caller b.admin amount t in
        (moved.0 ≡ ok true)
        × (b'.tokens ≡ set address moved.1 b.tokens)
        × (b'.liquidity_pools
            ≡ set address (record pool { balance = pool.balance +ℤ amount }) b.liquidity_pools)
        × (tx.amount ≡ amount -ℤ tx.fee)
        × (min_out ≤ℤ tx.amount)
  unfolding wrap_asset when_not_paused get_or_throw_token emit_event initiate_bridge calculate_fee
      check_slippage
  wrap_writes math now caller destination address amount recipient min_out b t pool tx
        (at_token, at) done =
      ground arith

  -- A wrap that returns, of a caller other than the bridge's administrator, whose account holds what is
  -- wrapped, puts the amount into the pool and into that account, both, for any token that does what
  -- ERC-20 promises; what it announces for the other chain is the amount less the fee, and no less
  -- than the caller asked for.
  pub wrap_backed :
      (math : SafeMath) (now : ℤ) (caller destination address : String) (amount : ℤ)
      (recipient : String) (min_out : ℤ) (b : Bridge T) (t : T) (pool : LiquidityPool)
      (tx : BridgeTransaction)
      → IsErc20 token
      → caller ≢ b.admin
      → Holds address b t pool
      → (wrap_asset math now caller destination address amount recipient min_out b).0 ≡ ok tx
      → let b' = (wrap_asset math now caller destination address amount recipient min_out b).1 in
        ((t' : T) × (pool' : LiquidityPool) × Holds address b' t' pool'
          × (token.balance_of b.admin t' ≡ token.balance_of b.admin t +ℤ amount)
          × (pool'.balance ≡ pool.balance +ℤ amount))
        × (tx.amount ≡ amount -ℤ tx.fee)
        × (min_out ≤ℤ tx.amount)
  wrap_backed math now caller destination address amount recipient min_out b t pool tx erc20 apart
        held done =
      let (returned, tokens, pools, fee, least) =
        wrap_writes math now caller destination address amount recipient min_out b t pool tx held
          done in
      let moved = token.transfer_from caller b.admin amount t in
      let pool' = record pool { balance = pool.balance +ℤ amount } in
      let (_, paid) = erc20.transfer_from-Moved caller b.admin amount t apart returned in
      (
        (
          moved.1,
          pool',
          (
            rw tokens (get-set_self address moved.1 b.tokens),
            rw pools (get-set_self address pool' b.liquidity_pools),
          ),
          paid,
          refl,
        ),
        fee,
        least,
      )
