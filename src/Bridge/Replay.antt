-- ===== src/Bridge/Replay.antt =====
-- A proof releases an asset once: what a release needs, and what a refused one costs.
use current_dao_contracts.Base.{
  length, ℤ, pos, ltb_ℤ, ◌≤ℤ◌, ◌≡◌, ◌≢◌, sym, ◌⊎◌, inl, inr, String, str_eq_refl, Bool, true, false,
  some, arith, get, has, has-add, Outcome, ok, throws, Option-cases, Outcome-cases,
}
use mathlib.Core.Path.{subst}
use current_dao_contracts.Bridge.Interface.{Erc20}
use current_dao_contracts.Bridge.Defs.{
  Bridge, Validator, BridgeTransaction, ValidationProof, ChainConfig, LiquidityPool, register_chain,
  is_chain_supported, validate_proof, emit_event, when_not_paused, only_admin, pause_bridge,
  unpause_bridge, update_fee_model, whitelist_asset, get_or_throw_token, finalize_bridge,
  tx_hash_of, unwrap_asset,
}
use current_dao_contracts.Bridge.Methods.{
  Method, pauses, unpauses, updates_fee_model, whitelists, wraps, unwraps, finalizes,
  registers_chain, validates, token_becomes, after, Reach, start, step, wrap-validator,
  unwrap-validator,
}

abbrev pub IsProcessed : String → Validator → Type 0
IsProcessed hash v = has hash v.processed_hashes ≡ true

validate-keeps :
    (hash tx_hash origin : String) (proof : ValidationProof) (v : Validator)
    → IsProcessed hash v
    → IsProcessed hash (validate_proof tx_hash origin proof v).1
unfolding validate_proof
validate-keeps hash tx_hash origin proof v h =
    ground (arith, has-add tx_hash hash v.processed_hashes)

register-keeps :
    (hash caller admin : String) (config : ChainConfig) (v : Validator)
    → IsProcessed hash v
    → IsProcessed hash (register_chain caller admin config v).1
unfolding register_chain
register-keeps hash caller admin config v h = ground arith

-- What a validation that returns has tested, and that it records the hash.
pub validated :
    (tx_hash origin : String) (proof : ValidationProof) (v : Validator) {r : Bool}
    → (validate_proof tx_hash origin proof v).0 ≡ ok r
    → (has tx_hash v.processed_hashes ≡ false)
      × IsProcessed tx_hash (validate_proof tx_hash origin proof v).1
      × ((config : ChainConfig) × (get origin v.supported_chains ≡ some config)
          × (config.is_active ≡ true)
          × (config.required_signatures ≤ℤ pos (length proof.signatures)))
unfolding validate_proof is_chain_supported
validated tx_hash origin proof v done = elim (Option-cases (get origin v.supported_chains)) [
  | inl absent ↦ let no : ⊥ = ground arith in elim no [ ]
  | inr (config, at) ↦ (
    ground arith,
    ground (arith, has-add tx_hash tx_hash v.processed_hashes, str_eq_refl tx_hash),
    (config, at, ground arith, ground arith),
  )
]

module _ {T : Type 0} ⦃token : Erc20 T⦄ where
  finalize-validator :
      (now : ℤ) (tx : BridgeTransaction) (proof : ValidationProof) (b : Bridge T)
      → let v = (finalize_bridge now tx proof b).1.validator in
        (v ≡ b.validator)
        ⊎ (v ≡ (validate_proof (tx_hash_of tx) tx.origin_chain proof b.validator).1)
  unfolding finalize_bridge when_not_paused emit_event
  finalize-validator now tx proof b = ground arith

  after-keeps :
      (hash : String) (now : ℤ) (caller : String) (m : Method T) (b : Bridge T)
      → IsProcessed hash b.validator
      → IsProcessed hash (after now caller m b).validator
  unfolding after pause_bridge unpause_bridge update_fee_model whitelist_asset only_admin emit_event
  after-keeps hash now caller pauses b h = ground arith
  after-keeps hash now caller unpauses b h = ground arith
  after-keeps hash now caller (updates_fee_model base congestion utilization) b h = ground arith
  after-keeps hash now caller (whitelists address liquidity) b h = ground arith
  after-keeps hash now caller (wraps math destination address amount recipient min_out) b h =
      subst (IsProcessed hash)
        (sym (wrap-validator math now caller destination address amount recipient min_out b)) h
  after-keeps hash now caller (unwraps origin address amount recipient proof) b h =
      elim (unwrap-validator now origin address amount recipient proof b) [
        | inl same ↦ subst (IsProcessed hash) (sym same) h
        | inr wrote ↦
            subst (IsProcessed hash) (sym wrote)
              (validate-keeps hash proof.tx_hash origin proof b.validator h)
      ]
  after-keeps hash now caller (finalizes tx proof) b h = elim (finalize-validator now tx proof b) [
    | inl same ↦ subst (IsProcessed hash) (sym same) h
    | inr wrote ↦
        subst (IsProcessed hash) (sym wrote)
          (validate-keeps hash (tx_hash_of tx) tx.origin_chain proof b.validator h)
  ]
  after-keeps hash now caller (registers_chain admin config) b h =
      register-keeps hash caller admin config b.validator h
  after-keeps hash now caller (validates tx_hash origin proof) b h =
      validate-keeps hash tx_hash origin proof b.validator h
  after-keeps hash now caller (token_becomes address t) b h = h

  pub Reach-keeps :
      {b c : Bridge T} (hash : String)
      → Reach b c
      → IsProcessed hash b.validator
      → IsProcessed hash c.validator
  Reach-keeps hash start h = h
  Reach-keeps hash (step now caller m r) h = after-keeps hash now caller m _ (Reach-keeps hash r h)

  -- A release that returns found the bridge running, the asset whitelisted, the pool large enough and
  -- the proof valid; it leaves the validator that the validation left.
  unwrap_needs :
      (now : ℤ) (origin address : String) (amount : ℤ) (recipient : String)
      (proof : ValidationProof) (b : Bridge T) {r : Bool}
      → (unwrap_asset now origin address amount recipient proof b).0 ≡ ok r
      → (b.paused ≡ false)
        × (has address b.whitelisted_assets ≡ true)
        × ((q : Bool) × ((validate_proof proof.tx_hash origin proof b.validator).0 ≡ ok q))
        × ((pool : LiquidityPool) × (get address b.liquidity_pools ≡ some pool)
            × (amount ≤ℤ pool.balance))
        × ((unwrap_asset now origin address amount recipient proof b).1.validator
            ≡ (validate_proof proof.tx_hash origin proof b.validator).1)
  unfolding unwrap_asset when_not_paused get_or_throw_token emit_event
  unwrap_needs now origin address amount recipient proof b done =
      let r : Outcome Bool × Validator = validate_proof proof.tx_hash origin proof b.validator in
      elim (Option-cases (get address b.liquidity_pools)) [
        | inl absent ↦ let no : ⊥ = ground arith in elim no [ ]
        | inr (pool, at) ↦ elim (Outcome-cases r.0) [
          | inl (q, valid) ↦
              (ground arith, ground arith, (q, valid), (pool, at, ground arith), ground arith)
          | inr (_, refused) ↦ let no : ⊥ = ground arith in elim no [ ]
        ]
      ]

  -- A hash releases once: two releases that return, one after the other with any calls between, have
  -- proofs of different hashes. Each of the two names a chain that was active when it was made, and has
  -- at least the signatures that the chain asked for then.
  pub no_replay :
      (now later : ℤ) (origin origin' address address' : String) (amount amount' : ℤ)
      (recipient recipient' : String) (proof proof' : ValidationProof) (b c : Bridge T)
      {r r' : Bool}
      → (unwrap_asset now origin address amount recipient proof b).0 ≡ ok r
      → Reach (unwrap_asset now origin address amount recipient proof b).1 c
      → (unwrap_asset later origin' address' amount' recipient' proof' c).0 ≡ ok r'
      → (proof.tx_hash ≢ proof'.tx_hash)
        × ((config : ChainConfig) × (get origin b.validator.supported_chains ≡ some config)
            × (config.is_active ≡ true)
            × (config.required_signatures ≤ℤ pos (length proof.signatures)))
        × ((config : ChainConfig) × (get origin' c.validator.supported_chains ≡ some config)
            × (config.is_active ≡ true)
            × (config.required_signatures ≤ℤ pos (length proof'.signatures)))
  no_replay now later origin origin' address address' amount amount' recipient recipient' proof
        proof' b c done between again =
      let (_, _, (_, valid), _, left) =
        unwrap_needs now origin address amount recipient proof b done in
      let (_, _, (_, valid'), _, _) =
        unwrap_needs later origin' address' amount' recipient' proof' c again in
      let (_, recorded, config) = validated proof.tx_hash origin proof b.validator valid in
      let (fresh, _, config') = validated proof'.tx_hash origin' proof' c.validator valid' in
      let kept =
        Reach-keeps proof.tx_hash between (subst (IsProcessed proof.tx_hash) (sym left) recorded) in
      ((λ same. ground arith), config, config')

  refused_validator :
      (now : ℤ) (origin address recipient : String) (amount : ℤ) (proof : ValidationProof)
      (b : Bridge T) (t : T) (pool : LiquidityPool)
      → b.paused ≡ false
      → has address b.whitelisted_assets ≡ true
      → (validate_proof proof.tx_hash origin proof b.validator).0 ≡ ok true
      → get address b.tokens ≡ some t
      → get address b.liquidity_pools ≡ some pool
      → ltb_ℤ pool.balance amount ≡ true
      → let (r, b') = unwrap_asset now origin address amount recipient proof b in
        (r ≡ throws "Bridge: Insufficient pool liquidity")
        × (b'.validator ≡ (validate_proof proof.tx_hash origin proof b.validator).1)
  unfolding unwrap_asset when_not_paused get_or_throw_token
  refused_validator now origin address recipient amount proof b t pool running listed valid at_token
        at short =
      ground arith

  -- A release with a recorded hash does not return.
  refuses :
      (now : ℤ) (origin address recipient : String) (amount : ℤ) (proof : ValidationProof)
      (b : Bridge T) (r : Bool)
      → IsProcessed proof.tx_hash b.validator
      → (unwrap_asset now origin address amount recipient proof b).0 ≢ ok r
  refuses now origin address recipient amount proof b r recorded done =
      let (_, _, (_, valid), _, _) =
        unwrap_needs now origin address amount recipient proof b done in
      let (fresh, _, _) = validated proof.tx_hash origin proof b.validator valid in
      cc (recorded, fresh)

  -- A release of an asset whose pool is too small throws, but the hash of its valid proof is recorded:
  -- the same proof is refused from then on, whatever is called between, also when the pool has grown.
  pub refused_release_burns_proof :
      (now later : ℤ) (origin address recipient : String) (amount : ℤ) (proof : ValidationProof)
      (b c : Bridge T) (t : T) (pool : LiquidityPool)
      → b.paused ≡ false
      → has address b.whitelisted_assets ≡ true
      → (validate_proof proof.tx_hash origin proof b.validator).0 ≡ ok true
      → get address b.tokens ≡ some t
      → get address b.liquidity_pools ≡ some pool
      → ltb_ℤ pool.balance amount ≡ true
      → Reach (unwrap_asset now origin address amount recipient proof b).1 c
      → ((unwrap_asset now origin address amount recipient proof b).0
          ≡ throws "Bridge: Insufficient pool liquidity")
        × ((r : Bool) → (unwrap_asset later origin address amount recipient proof c).0 ≢ ok r)
  refused_release_burns_proof now later origin address recipient amount proof b c t pool running
        listed valid at_token at short between =
      let (_, recorded, _) = validated proof.tx_hash origin proof b.validator valid in
      let left =
        refused_validator now origin address recipient amount proof b t pool running listed valid
          at_token at short in
      let kept =
        Reach-keeps proof.tx_hash between
          (subst (IsProcessed proof.tx_hash) (sym left.1) recorded) in
      (left.0, λ r done. refuses later origin address recipient amount proof c r kept done)
