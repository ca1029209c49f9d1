-- ===== src/Bridge/Tests.antt =====
-- A bridge of WattToken with one chain, and the theorems at it.
use current_dao_contracts.Base.{
  pos, negsuc, ◌+ℤ◌, ◌-ℤ◌, ◌*ℤ◌, ◌≤ℤ◌, ◌≡◌, ◌≢◌, refl, String, ◌==◌, eq_iff, concat, Bool, true,
  false, some, [], ◌∷◌, get, set, add, ok, throws,
}
use current_dao_contracts.Token.{Token, allowance, balance_of, transfer_from, execute_transfer}
use current_dao_contracts.Bridge.Interface.{Erc20, IsErc20, SafeMath}
use current_dao_contracts.Bridge.Defs.{
  Bridge, BridgeTransaction, ValidationProof, ChainConfig, LiquidityPool, Validator, new,
  validate_proof, is_chain_supported, wrap_asset, unwrap_asset, release, check_slippage,
  calculate_fee, when_not_paused, get_or_throw_token, emit_event, initiate_bridge, finalize_bridge,
  tx_hash_of,
}
use current_dao_contracts.Bridge.Methods.{after, start, step, whitelists}
use current_dao_contracts.Bridge.Replay.{no_replay, refused_release_burns_proof}
use current_dao_contracts.Bridge.Backing.{Holds, wrap_backed}
use current_dao_contracts.Bridge.Collision.{paid_to, recipients_collide}
use current_dao_contracts.Bridge.Watt.{watt, watt-IsErc20}

-- The arithmetic of integers, the quotient rounded down; no operation throws.
abbrev math : SafeMath
math = record {
  add = λ a b. ok (a +ℤ b);
  mul = λ a b. ok (a *ℤ b);
  div = λ a b. ok (elim a [ pos n ↦ pos (Prim.Native.Nat.◌/◌ n 10000) | negsuc n ↦ negsuc n ]);
}

instance abbrev tokens_at_9 : Erc20 Token
tokens_at_9 = watt (pos 9)

abbrev t : Token
t = record {
  total_supply = pos 5000;
  balances = ("bridge", pos 1000) ∷ ("ann", pos 4000) ∷ [];
  allowances = ("ann", ("bridge", pos 3000) ∷ []) ∷ [];
  admin = "root";
  minters = [];
  burners = [];
  paused = false;
  events = [];
}

abbrev config : ChainConfig
config = record { chain_id = "far"; is_active = true; required_signatures = pos 1 }

abbrev pool : LiquidityPool
pool = record { chain = "local"; token_address = "watt"; balance = pos 1000 }

abbrev b : Bridge Token
b = record {
  admin = "bridge";
  paused = false;
  nonce = pos 0;
  validator = record { processed_hashes = []; supported_chains = ("far", config) ∷ [] };
  whitelisted_assets = "watt" ∷ [];
  liquidity_pools = ("watt", pool) ∷ [];
  tokens = ("watt", t) ∷ [];
  base_fee = pos 10;
  congestion_factor = pos 50;
  liquidity_utilization = pos 20;
  events = [];
}

abbrev proof_of : String → ValidationProof
proof_of hash = record { signatures = "s1" ∷ []; relayer = "rel"; tx_hash = hash }

abbrev b1 : Bridge Token
b1 = (unwrap_asset (pos 1) "far" "watt" (pos 300) "bob" (proof_of "hash_1") b).1

abbrev b2 : Bridge Token
b2 = after (pos 2) "bridge" (whitelists "gold" (pos 5)) b1

released : (unwrap_asset (pos 1) "far" "watt" (pos 300) "bob" (proof_of "hash_1") b).0 ≡ ok true
unfolding unwrap_asset validate_proof release execute_transfer ◌+ℤ◌ set
released = refl

released_again :
    (unwrap_asset (pos 3) "far" "watt" (pos 200) "bob" (proof_of "hash_2") b2).0 ≡ ok true
unfolding unwrap_asset validate_proof after current_dao_contracts.Bridge.Defs.whitelist_asset
    release execute_transfer ◌+ℤ◌ set add ◌-ℤ◌
released_again = refl

no_replay_example :
    (◌≢◌ {A = String} "hash_1" "hash_2")
    × ((c : ChainConfig) × (get "far" b.validator.supported_chains ≡ some c)
        × (c.is_active ≡ true)
        × (c.required_signatures ≤ℤ pos 1))
    × ((c : ChainConfig) × (get "far" b2.validator.supported_chains ≡ some c)
        × (c.is_active ≡ true)
        × (c.required_signatures ≤ℤ pos 1))
no_replay_example =
    no_replay (pos 1) (pos 3) "far" "far" "watt" "watt" (pos 300) (pos 200) "bob" "bob"
      (proof_of "hash_1") (proof_of "hash_2") b b2 released
      (step (pos 2) "bridge" (whitelists "gold" (pos 5)) start) released_again

valid : (validate_proof "hash_1" "far" (proof_of "hash_1") b.validator).0 ≡ ok true
unfolding validate_proof
valid = refl

abbrev short : Bridge Token
short = (unwrap_asset (pos 1) "far" "watt" (pos 1200) "bob" (proof_of "hash_1") b).1

refused_release_burns_proof_test :
    ((unwrap_asset (pos 1) "far" "watt" (pos 1200) "bob" (proof_of "hash_1") b).0
      ≡ throws "Bridge: Insufficient pool liquidity")
    × ((r : Bool)
        → (unwrap_asset
            (pos 3)
            "far"
            "watt"
            (pos 1200)
            "bob"
            (proof_of "hash_1")
            (after (pos 2) "bridge" (whitelists "watt" (pos 9000)) short)).0
          ≢ ok r)
refused_release_burns_proof_test =
    refused_release_burns_proof (pos 1) (pos 3) "far" "watt" "bob" (pos 1200) (proof_of "hash_1") b
      (after (pos 2) "bridge" (whitelists "watt" (pos 9000)) short) t pool refl refl valid refl refl
      refl (step (pos 2) "bridge" (whitelists "watt" (pos 9000)) start)

apart_of : (s u : String) → (s == u) ≡ false → s ≢ u
apart_of s u e k = cc (e, (eq_iff s u).1 k)

abbrev tx : BridgeTransaction
tx = record {
  nonce = pos 1;
  origin_chain = "local";
  destination_chain = "far";
  token_address = "watt";
  sender = "ann";
  recipient = "bob";
  amount = pos 1976;
  fee = pos 24;
}

wrapped : (wrap_asset math (pos 1) "ann" "far" "watt" (pos 2000) "bob" (pos 1900) b).0 ≡ ok tx
unfolding wrap_asset calculate_fee check_slippage is_chain_supported ◌-ℤ◌ ◌+ℤ◌ ◌*ℤ◌ allowance
    transfer_from execute_transfer set
wrapped = refl

wrap_backed_example :
    let b' = (wrap_asset math (pos 1) "ann" "far" "watt" (pos 2000) "bob" (pos 1900) b).1 in
    ((t' : Token) × (pool' : LiquidityPool) × Holds "watt" b' t' pool'
      × (balance_of "bridge" t' ≡ balance_of "bridge" t +ℤ pos 2000)
      × (pool'.balance ≡ pos 1000 +ℤ pos 2000))
    × (pos 1976 ≡ pos 2000 -ℤ pos 24)
    × (pos 1900 ≤ℤ pos 1976)
wrap_backed_example =
    wrap_backed math (pos 1) "ann" "far" "watt" (pos 2000) "bob" (pos 1900) b t pool tx
      (watt-IsErc20 (pos 9)) (apart_of "ann" "bridge" refl) (refl, refl) wrapped

abbrev incoming : BridgeTransaction
incoming = record tx { origin_chain = "far"; destination_chain = "local" }

abbrev vouched : ValidationProof
vouched = proof_of (tx_hash_of (paid_to (concat ("0x" ∷ "Aa" ∷ [])) incoming))

abbrev paid_in : Bridge Token
paid_in = (finalize_bridge (pos 1) (paid_to (concat ("0x" ∷ "Aa" ∷ [])) incoming) vouched b).1

finalizes_first :
    (finalize_bridge (pos 1) (paid_to (concat ("0x" ∷ "Aa" ∷ [])) incoming) vouched b).0 ≡ ok true
unfolding finalize_bridge validate_proof tx_hash_of current_dao_contracts.Base.show_number
    current_dao_contracts.Bridge.Hash.generate_tx_hash
finalizes_first = refl

recipients_collide_example :
    (tx_hash_of (paid_to (concat ("0x" ∷ "Aa" ∷ [])) incoming)
      ≡ tx_hash_of (paid_to (concat ("0x" ∷ "BB" ∷ [])) incoming))
    × ((finalize_bridge
          (pos 3)
          (paid_to (concat ("0x" ∷ "BB" ∷ [])) incoming)
          (proof_of "any")
          (after (pos 2) "bridge" (whitelists "gold" (pos 5)) paid_in)).0
        ≢ ok true)
recipients_collide_example =
    recipients_collide (pos 1) (pos 3) incoming "0x" vouched (proof_of "any") b
      (after (pos 2) "bridge" (whitelists "gold" (pos 5)) paid_in) true true finalizes_first
      (step (pos 2) "bridge" (whitelists "gold" (pos 5)) start)

watt-IsErc20_example : IsErc20 (watt (pos 9))
watt-IsErc20_example = watt-IsErc20 (pos 9)
