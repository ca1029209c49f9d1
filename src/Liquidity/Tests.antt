-- ===== src/Liquidity/Tests.antt =====
-- Two chains, and the theorems at them.
use current_dao_contracts.Base.{
  ℕ, ℤ, pos, negsuc, ◌+ℤ◌, ◌-ℤ◌, ◌≡◌, refl, true, false, some, [], ◌∷◌, Table, find, put, ok, arith,
}
use current_dao_contracts.Liquidity.Defs.{
  ChainInfo, LiquidityPool, credit, debit, begin_bridge, finish_bridge, bridge,
  calculate_rebalancing_actions, total_liquidity, bridge_each, rebalance,
}
use current_dao_contracts.Liquidity.Bridging.{
  start, next, begins, finishes, bridging_conserves, overlap_overdraws,
}
use current_dao_contracts.Liquidity.Planning.{AllPositive, total_amount, planning_creates}

abbrev chain : ℕ → ℤ → ℤ → ChainInfo
chain id current target = record {
  chain_id = id;
  name = "c";
  native_asset = "a";
  current_liquidity = current;
  target_liquidity = target;
  active = true;
}

abbrev chains : Table ChainInfo
chains = (1, chain 1 (pos 150) (pos 100)) ∷ (2, chain 2 (pos 60) (pos 100)) ∷ []

abbrev p : LiquidityPool
p = record { chains = chains; positions = []; is_emergency = false; waiting = [] }

bridging_conserves_example :
    total_liquidity (finish_bridge (bridge 2 1 (pos 60) (bridge 1 2 (pos 150) p).1).1).chains
    ≡ total_liquidity p.chains
bridging_conserves_example =
    bridging_conserves tt
      (next (next (next start (begins 1 2 (pos 150))) (begins 2 1 (pos 60))) finishes)

overlap_overdraws_example :
    let p1 = (begin_bridge 1 2 (pos 150) p).1 in
    let p2 = (begin_bridge 1 2 (pos 100) p1).1 in
    ((begin_bridge 1 2 (pos 150) p).0 ≡ ok tt)
    × ((begin_bridge 1 2 (pos 100) p1).0 ≡ ok tt)
    × ((c' : ChainInfo) × (find 1 (finish_bridge (finish_bridge p2)).chains ≡ some c')
        × (c'.current_liquidity ≡ pos 150 -ℤ pos 150 -ℤ pos 100))
overlap_overdraws_example =
    overlap_overdraws p 1 2 (pos 150) (pos 100) (chain 1 (pos 150) (pos 100))
      (chain 2 (pos 60) (pos 100)) refl refl refl refl refl refl (omega arith) (omega arith)

-- What is left is below zero.
overdrawn_test : pos 150 -ℤ pos 150 -ℤ pos 100 ≡ negsuc 99
unfolding ◌-ℤ◌
overdrawn_test = refl

planning_creates_example :
    let (actions, later) = calculate_rebalancing_actions chains in
    (total_liquidity later ≡ total_liquidity chains +ℤ total_amount actions) × AllPositive actions
planning_creates_example = planning_creates chains (refl, (refl, tt))

-- A rebalancing of 210 in all leaves 250.
rebalanced_test : total_liquidity (rebalance p).1.chains ≡ pos 250
unfolding rebalance bridge_each calculate_rebalancing_actions begin_bridge finish_bridge credit
    debit put ◌-ℤ◌ ◌+ℤ◌
rebalanced_test = refl
