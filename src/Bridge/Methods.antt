-- ===== src/Bridge/Methods.antt =====
-- The calls of the bridge and of its validator, and what each does to the validator.
use current_dao_contracts.Base.{ℤ, ◌≡◌, ◌⊎◌, String, arith, set}
use current_dao_contracts.Bridge.Interface.{Erc20, SafeMath}
use current_dao_contracts.Bridge.Defs.{
  Bridge, BridgeTransaction, ValidationProof, ChainConfig, register_chain, validate_proof,
  emit_event, when_not_paused, pause_bridge, unpause_bridge, update_fee_model, whitelist_asset,
  get_or_throw_token, initiate_bridge, finalize_bridge, wrap_asset, unwrap_asset, calculate_fee,
}

-- A call that writes. Anybody can call the validator itself, and the tokens change on their own.
pub data Method (T : Type 0) : Type 0 where
  pauses unpauses : Method T
  updates_fee_model : ℤ → ℤ → ℤ → Method T
  whitelists : String → ℤ → Method T
  wraps : SafeMath → String → String → ℤ → String → ℤ → Method T
  unwraps : String → String → ℤ → String → ValidationProof → Method T
  finalizes : BridgeTransaction → ValidationProof → Method T
  registers_chain : String → ChainConfig → Method T
  validates : String → String → ValidationProof → Method T
  token_becomes : String → T → Method T

module _ {T : Type 0} ⦃token : Erc20 T⦄ where
  -- The bridge after the call, whether it returned or threw.
  unfoldable pub after : ℤ → String → Method T → Bridge T → Bridge T
  after now caller pauses b = (pause_bridge now caller b).1
  after now caller unpauses b = (unpause_bridge now caller b).1
  after now caller (updates_fee_model base congestion utilization) b =
      (update_fee_model now caller base congestion utilization b).1
  after now caller (whitelists address liquidity) b =
      (whitelist_asset now caller address liquidity b).1
  after now caller (wraps math destination address amount recipient min_out) b =
      (wrap_asset math now caller destination address amount recipient min_out b).1
  after now caller (unwraps origin address amount recipient proof) b =
      (unwrap_asset now origin address amount recipient proof b).1
  after now caller (finalizes tx proof) b = (finalize_bridge now tx proof b).1
  after now caller (registers_chain admin config) b = record b {
    validator = (register_chain caller admin config b.validator).1;
  }
  after now caller (validates tx_hash origin proof) b = record b {
    validator = (validate_proof tx_hash origin proof b.validator).1;
  }
  after now caller (token_becomes address t) b = record b { tokens = set address t b.tokens }

  -- The states that any calls lead to from `b`.
  pub data Reach (b : Bridge T) : Bridge T → Type 0 where
    start : Reach b b
    step :
        {c : Bridge T}
        → (now : ℤ) (caller : String) (m : Method T) → Reach b c
        → Reach b (after now caller m c)

  pub wrap-validator :
      (math : SafeMath) (now : ℤ) (caller destination address : String) (amount : ℤ)
      (recipient : String) (min_out : ℤ) (b : Bridge T)
      → (wrap_asset math now caller destination address amount recipient min_out b).1.validator
        ≡ b.validator
  unfolding wrap_asset when_not_paused get_or_throw_token emit_event initiate_bridge calculate_fee
  wrap-validator math now caller destination address amount recipient min_out b = ground arith

  pub unwrap-validator :
      (now : ℤ) (origin address : String) (amount : ℤ) (recipient : String)
      (proof : ValidationProof) (b : Bridge T)
      → let v = (unwrap_asset now origin address amount recipient proof b).1.validator in
        (v ≡ b.validator) ⊎ (v ≡ (validate_proof proof.tx_hash origin proof b.validator).1)
  unfolding unwrap_asset when_not_paused get_or_throw_token emit_event
  unwrap-validator now origin address amount recipient proof b = ground arith
