-- ===== src/Bridge/Defs.antt =====
-- MultiChainValidator and CrossChainBridge, method by method. A token is an object of the store
-- `tokens`, one for each address; the validator is the bridge's own. `now` is `Date.now()`.
use current_dao_contracts.Base.{
  ⊤, length, ℤ, pos, ◌+ℤ◌, ◌-ℤ◌, ltb_ℤ, leb_ℤ, String, ◌==◌, Bool, true, false, not, none, some,
  List, [], ◌∷◌, ◌++◌, Dict, get, set, Set, has, add, Call, pure, gets, or_throw, throw_if, modify,
  zoom, lift, catching, ◌>>=◌, ◌>>◌,
}
use current_dao_contracts.Bridge.Interface.{Erc20, SafeMath}
use current_dao_contracts.Bridge.Hash.{generate_tx_hash}

pub record BridgeTransaction : Type 0 where
  pub nonce : ℤ
  pub origin_chain : String
  pub destination_chain : String
  pub token_address : String
  pub sender : String
  pub recipient : String
  pub amount : ℤ
  pub fee : ℤ

pub record LiquidityPool : Type 0 where
  pub chain : String
  pub token_address : String
  pub balance : ℤ

pub record ChainConfig : Type 0 where
  pub chain_id : String
  pub is_active : Bool
  pub required_signatures : ℤ

pub record ValidationProof : Type 0 where
  pub signatures : List String
  pub relayer : String
  pub tx_hash : String

pub record Validator : Type 0 where
  pub processed_hashes : Set
  pub supported_chains : Dict ChainConfig

unfoldable pub register_chain : String → String → ChainConfig → Call Validator ⊤
register_chain caller admin config = do
  throw_if (not (caller == admin)) "Validator: Unauthorized"
  modify λ v. record v { supported_chains = set config.chain_id config v.supported_chains }

unfoldable pub is_chain_supported : String → Validator → Bool
is_chain_supported chain_id v = elim (get chain_id v.supported_chains) [
  | none ↦ false
  | some config ↦ config.is_active
]

unfoldable pub validate_proof : String → String → ValidationProof → Call Validator Bool
unfolding is_chain_supported
validate_proof tx_hash origin_chain proof = do
  throw_if (← gets (λ v. not (is_chain_supported origin_chain v)))
      "Validator: Origin chain not supported"
  throw_if (← gets (λ v. has tx_hash v.processed_hashes)) "Validator: Transaction already processed"
  found ← gets (λ v. get origin_chain v.supported_chains)
  config ← or_throw found "TypeError"
  throw_if (ltb_ℤ (pos (length proof.signatures)) config.required_signatures)
      "Validator: Insufficient signatures"
  throw_if (not (proof.tx_hash == tx_hash)) "Validator: Hash mismatch in proof"
  modify λ v. record v { processed_hashes = add tx_hash v.processed_hashes }
  pure true

pub data EventData : Type 0 where
  initialized bridge_paused bridge_unpaused : String → EventData
  fee_model_updated : ℤ → ℤ → ℤ → EventData
  asset_whitelisted : String → ℤ → EventData
  asset_wrapped bridge_completed : BridgeTransaction → EventData
  bridge_initiated : BridgeTransaction → String → EventData
  asset_unwrapped : String → ℤ → String → String → EventData

pub record Event : Type 0 where
  pub timestamp : ℤ
  pub content : EventData

pub record Bridge (T : Type 0) : Type 0 where
  pub admin : String
  pub paused : Bool
  pub nonce : ℤ
  pub validator : Validator
  pub whitelisted_assets : Set
  pub liquidity_pools : Dict LiquidityPool
  pub tokens : Dict T
  pub base_fee : ℤ
  pub congestion_factor : ℤ
  pub liquidity_utilization : ℤ
  pub events : List Event

-- `BridgeLib.checkSlippage`
unfoldable pub check_slippage : ℤ → ℤ → Bool
check_slippage expected_out min_out = leb_ℤ min_out expected_out

-- `BridgeLib.calculateFee`
unfoldable pub calculate_fee : {S : Type 0} → SafeMath → ℤ → ℤ → ℤ → ℤ → Call S ℤ
calculate_fee math amount base_fee congestion_factor liquidity_utilization = do
  c ← lift (math.mul amount congestion_factor)
  congestion_fee ← lift (math.div c (pos 10000))
  u ← lift (math.mul amount liquidity_utilization)
  utilization_fee ← lift (math.div u (pos 10000))
  fees ← lift (math.add congestion_fee utilization_fee)
  lift (math.add base_fee fees)

unfoldable pub tx_hash_of : BridgeTransaction → String
tx_hash_of tx =
    generate_tx_hash tx.nonce tx.origin_chain tx.destination_chain tx.token_address tx.sender
      tx.recipient tx.amount

module _ {T : Type 0} where
  unfoldable pub new : ℤ → String → Validator → Dict T → Bridge T
  new now admin validator tokens = record {
    admin = admin;
    paused = false;
    nonce = pos 0;
    validator = validator;
    whitelisted_assets = [];
    liquidity_pools = [];
    tokens = tokens;
    base_fee = pos 10;
    congestion_factor = pos 50;
    liquidity_utilization = pos 20;
    events = record { timestamp = now; content = initialized admin } ∷ [];
  }

  unfoldable pub emit_event : ℤ → EventData → Call (Bridge T) ⊤
  emit_event now e =
      modify λ b. record b { events = b.events ++ (record { timestamp = now; content = e } ∷ []) }

  unfoldable pub when_not_paused : Call (Bridge T) ⊤
  when_not_paused = do throw_if (← gets (λ b. b.paused)) "Bridge: paused"

  unfoldable pub only_admin : String → Call (Bridge T) ⊤
  only_admin caller = do
    throw_if (← gets (λ b. not (caller == b.admin))) "Bridge: caller is not an admin"

  unfoldable pub pause_bridge : ℤ → String → Call (Bridge T) ⊤
  unfolding only_admin emit_event
  pause_bridge now caller = do
    only_admin caller
    modify λ b. record b { paused = true }
    emit_event now (bridge_paused caller)

  unfoldable pub unpause_bridge : ℤ → String → Call (Bridge T) ⊤
  unfolding only_admin emit_event
  unpause_bridge now caller = do
    only_admin caller
    modify λ b. record b { paused = false }
    emit_event now (bridge_unpaused caller)

  unfoldable pub update_fee_model : ℤ → String → ℤ → ℤ → ℤ → Call (Bridge T) ⊤
  unfolding only_admin emit_event
  update_fee_model now caller base_fee congestion_factor liquidity_utilization = do
    only_admin caller
    modify λ b. record b {
      base_fee = base_fee;
      congestion_factor = congestion_factor;
      liquidity_utilization = liquidity_utilization;
    }
    emit_event now (fee_model_updated base_fee congestion_factor liquidity_utilization)

  unfoldable pub whitelist_asset : ℤ → String → String → ℤ → Call (Bridge T) ⊤
  unfolding only_admin emit_event
  whitelist_asset now caller token_address initial_liquidity = do
    only_admin caller
    modify λ b. record b {
      whitelisted_assets = add token_address b.whitelisted_assets;
      liquidity_pools =
          set token_address
            (record { chain = "local"; token_address = token_address; balance = initial_liquidity })
            b.liquidity_pools;
    }
    emit_event now (asset_whitelisted token_address initial_liquidity)

  unfoldable pub get_liquidity : String → Bridge T → ℤ
  get_liquidity token_address b = elim (get token_address b.liquidity_pools) [
    | none ↦ pos 0
    | some pool ↦ pool.balance
  ]

  unfoldable pub get_or_throw_token : String → Call (Bridge T) T
  get_or_throw_token address = do
    found ← gets (λ b. get address b.tokens)
    or_throw found "Bridge: Token contract not registered"

  -- A call on the token of an address; `token` is what the store holds there.
  abbrev pub on_token : {A : Type 0} → String → T → Call T A → Call (Bridge T) A
  on_token address token m b =
      let (r, t) = m token in (r, record b { tokens = set address t b.tokens })

  -- Adds to a pool's balance.
  abbrev pub credit_pool : String → LiquidityPool → ℤ → Bridge T → Bridge T
  credit_pool address pool amount b = record b {
    liquidity_pools =
        set address (record pool { balance = pool.balance +ℤ amount }) b.liquidity_pools;
  }

  unfoldable pub initiate_bridge : ℤ → BridgeTransaction → Call (Bridge T) String
  unfolding emit_event
  initiate_bridge now tx = do
    emit_event now (bridge_initiated tx (tx_hash_of tx))
    pure (tx_hash_of tx)

  unfoldable pub finalize_bridge : ℤ → BridgeTransaction → ValidationProof → Call (Bridge T) Bool
  unfolding when_not_paused emit_event
  finalize_bridge now tx proof = do
    when_not_paused
    zoom (λ (b : Bridge T). b.validator) (λ v b. record b { validator = v })
        (validate_proof (tx_hash_of tx) tx.origin_chain proof)
    emit_event now (bridge_completed tx)
    pure true

module _ {T : Type 0} ⦃token : Erc20 T⦄ where
  unfoldable pub wrap_asset :
      SafeMath → ℤ → String → String → String → ℤ → String → ℤ → Call (Bridge T) BridgeTransaction
  unfolding when_not_paused get_or_throw_token emit_event initiate_bridge
  wrap_asset math now caller destination address amount recipient min_out = do
    when_not_paused
    throw_if (← gets (λ b. not (has address b.whitelisted_assets))) "Bridge: Asset not whitelisted"
    throw_if (← gets (λ b. not (is_chain_supported destination b.validator)))
        "Bridge: Destination chain not supported"
    b ← gets (λ b. b)
    fee ← calculate_fee math amount b.base_fee b.congestion_factor b.liquidity_utilization
    throw_if (not (check_slippage (amount -ℤ fee) min_out)) "Bridge: Slippage exceeded"
    t ← get_or_throw_token address
    throw_if (ltb_ℤ (token.allowance caller b.admin t) amount)
        "Bridge: Insufficient token allowance"
    success ← on_token address t (token.transfer_from caller b.admin amount)
    throw_if (not success) "Bridge: Transfer failed"
    found ← gets (λ b. get address b.liquidity_pools)
    pool ← or_throw found "TypeError"
    modify (credit_pool address pool amount)
    modify λ b. record b { nonce = b.nonce +ℤ pos 1 }
    nonce ← gets (λ b. b.nonce)
    tx ← pure (record {
      nonce = nonce;
      origin_chain = "local";
      destination_chain = destination;
      token_address = address;
      sender = caller;
      recipient = recipient;
      amount = amount -ℤ fee;
      fee = fee;
    })
    emit_event now (asset_wrapped tx)
    initiate_bridge now tx
    pure tx

  -- The `catch` of `unwrapAsset`. The token is the one that `executeTransfer` left.
  unfoldable pub release : String → String → String → ℤ → Call T ⊤
  release address admin recipient amount =
      catching (do token.execute_transfer admin recipient amount; pure tt)
        (do
          success ← token.transfer_from admin recipient amount
          throw_if (not success) "Bridge: Unwrap transfer failed")

  unfoldable pub unwrap_asset :
      ℤ → String → String → ℤ → String → ValidationProof → Call (Bridge T) Bool
  unfolding when_not_paused get_or_throw_token emit_event
  unwrap_asset now origin address amount recipient proof = do
    when_not_paused
    throw_if (← gets (λ b. not (has address b.whitelisted_assets))) "Bridge: Asset not whitelisted"
    zoom (λ (b : Bridge T). b.validator) (λ v b. record b { validator = v })
        (validate_proof proof.tx_hash origin proof)
    t ← get_or_throw_token address
    found ← gets (λ b. get address b.liquidity_pools)
    pool ← or_throw found "Bridge: Insufficient pool liquidity"
    throw_if (ltb_ℤ pool.balance amount) "Bridge: Insufficient pool liquidity"
    modify (λ b. record b {
      liquidity_pools =
          set address (record pool { balance = pool.balance -ℤ amount }) b.liquidity_pools;
    })
    admin ← gets (λ b. b.admin)
    on_token address t (release address admin recipient amount)
    emit_event now (asset_unwrapped recipient amount address origin)
    pure true
