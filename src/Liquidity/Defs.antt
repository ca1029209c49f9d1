-- ===== src/Liquidity/Defs.antt =====
-- MultiChainLiquidityPool with its bridge and its rebalancing, on integers. A chain is an object that
-- the pool, the bridge and the rebalancing share.
use current_dao_contracts.Base.{
  ℕ, ⊤, ℤ, pos, ◌+ℤ◌, ◌-ℤ◌, ltb_ℤ, leb_ℤ, eqb_ℤ, String, concat, show_number, Bool, not, ◌&&◌, none,
  some, List, [], ◌∷◌, ◌++◌, Dict, get, set, delete, get_or, Table, find, put, values, filter, Call,
  pure, gets, or_throw, throw_if, modify, ◌>>=◌, ◌>>◌, if◌then◌else◌,
}

pub record ChainInfo : Type 0 where
  pub chain_id : ℕ
  pub name : String
  pub native_asset : String
  pub current_liquidity : ℤ
  pub target_liquidity : ℤ
  pub active : Bool

pub record LiquidityPosition : Type 0 where
  pub provider : String
  pub chain_id : ℕ
  pub amount : ℤ
  pub entry_price : ℤ
  pub timestamp : ℤ
  pub reward_debt : ℤ

pub record RebalancingAction : Type 0 where
  pub from_chain : ℕ
  pub to_chain : ℕ
  pub amount : ℤ

-- A bridge that waits for its timeout.
pub record Transfer : Type 0 where
  pub source : ℕ
  pub destination : ℕ
  pub amount : ℤ

pub record LiquidityPool : Type 0 where
  pub chains : Table ChainInfo
  pub positions : Dict (List LiquidityPosition)
  pub is_emergency : Bool
  pub waiting : List Transfer

-- `chain.currentLiquidity += amount`
unfoldable pub credit : ℕ → ℤ → Table ChainInfo → Table ChainInfo
credit id amount chains = elim (find id chains) [
  | none ↦ chains
  | some c ↦ put id (record c { current_liquidity = c.current_liquidity +ℤ amount }) chains
]

-- `chain.currentLiquidity -= amount`
unfoldable pub debit : ℕ → ℤ → Table ChainInfo → Table ChainInfo
debit id amount chains = elim (find id chains) [
  | none ↦ chains
  | some c ↦ put id (record c { current_liquidity = c.current_liquidity -ℤ amount }) chains
]

unfoldable pub deposit : ℤ → String → ℕ → ℤ → Call LiquidityPool ⊤
deposit now provider chain_id amount = do
  throw_if (← gets (λ p. p.is_emergency)) "Contract is in emergency mode."
  found ← gets (λ p. find chain_id p.chains)
  chain ← or_throw found "Invalid or inactive chain."
  throw_if (not chain.active) "Invalid or inactive chain."
  modify λ p. record p {
    chains = credit chain_id amount p.chains;
    positions =
        set provider
          (get_or (get provider p.positions) []
            ++ (record {
              provider = provider;
              chain_id = chain_id;
              amount = amount;
              entry_price = pos 1000;
              timestamp = now;
              reward_debt = pos 0;
            }
                ∷ []))
          p.positions;
  }

-- `bridgeAsset` up to its timeout.
unfoldable pub begin_bridge : ℕ → ℕ → ℤ → Call LiquidityPool ⊤
begin_bridge source destination amount = do
  from_found ← gets (λ p. find source p.chains)
  to_found ← gets (λ p. find destination p.chains)
  from_chain ← or_throw from_found (concat ("Chain not found: " ∷ show_number (pos source) ∷ []))
  to_chain ← or_throw to_found (concat ("Chain not found: " ∷ show_number (pos destination) ∷ []))
  throw_if (not from_chain.active)
      (concat ("Chain is not active: " ∷ show_number (pos source) ∷ []))
  throw_if (not to_chain.active)
      (concat ("Chain is not active: " ∷ show_number (pos destination) ∷ []))
  throw_if (ltb_ℤ from_chain.current_liquidity amount)
      (concat ("Insufficient liquidity on source chain: " ∷ show_number (pos source) ∷ []))
  modify λ p. record p {
    waiting =
        p.waiting ++ (record { source = source; destination = destination; amount = amount } ∷ []);
  }

-- The timeout of the bridge that began first: every bridge waits as long.
unfoldable pub finish_bridge : LiquidityPool → LiquidityPool
finish_bridge p = elim p.waiting [
  | [] ↦ p
  | t ∷ rest ↦ record p {
    chains = credit t.destination t.amount (debit t.source t.amount p.chains);
    waiting = rest;
  }
]

-- `bridge`: the slippage of an amount against 99 hundredths of it is a hundredth, and NaN at 0.
unfoldable pub bridge : ℕ → ℕ → ℤ → Call LiquidityPool ⊤
unfolding begin_bridge
bridge source destination amount = do
  throw_if (← gets (λ p. p.is_emergency)) "Bridging disabled during emergency."
  throw_if (eqb_ℤ amount (pos 0)) "Slippage too high."
  begin_bridge source destination amount

-- `Math.min`
abbrev pub min : ℤ → ℤ → ℤ
min a b = if leb_ℤ a b then a else b

-- The inner loop of `calculateRebalancingActions`: the chains that need liquidity, by their ids.
unfoldable pub plan_from :
    ℕ → ℤ → List ChainInfo → Table ChainInfo → List RebalancingAction × Table ChainInfo
unfolding credit
plan_from source surplus [] chains = ([], chains)
plan_from source surplus (d ∷ deficits) chains =
    let now = elim (find d.chain_id chains) as (λ _. ℤ) [
      | none ↦ d.current_liquidity
      | some c ↦ c.current_liquidity
    ] in
    let to_move = min surplus (d.target_liquidity -ℤ now) in
    let action : RebalancingAction = record {
      from_chain = source;
      to_chain = d.chain_id;
      amount = to_move;
    } in
    let moved = plan_from source (surplus -ℤ to_move) deficits (credit d.chain_id to_move chains) in
    let skipped = plan_from source surplus deficits chains in
    if leb_ℤ surplus (pos 0)
    then ([], chains)
    else if ltb_ℤ (pos 0) to_move
    then (action ∷ moved.0, moved.1)
    else skipped

-- The outer loop.
unfoldable pub plan_all :
    List ChainInfo → List ChainInfo → Table ChainInfo → List RebalancingAction × Table ChainInfo
unfolding plan_from
plan_all [] deficits chains = ([], chains)
plan_all (c ∷ excess) deficits chains =
    let first = plan_from c.chain_id (c.current_liquidity -ℤ c.target_liquidity) deficits chains in
    let rest = plan_all excess deficits first.1 in (first.0 ++ rest.0, rest.1)

unfoldable pub calculate_rebalancing_actions :
    Table ChainInfo → List RebalancingAction × Table ChainInfo
unfolding plan_all
calculate_rebalancing_actions chains =
    plan_all
      (filter (λ c. c.active && ltb_ℤ c.target_liquidity c.current_liquidity) (values chains))
      (filter (λ c. c.active && ltb_ℤ c.current_liquidity c.target_liquidity) (values chains))
      chains

-- The loop of `rebalance`, each bridge awaited, nothing else in between.
unfoldable pub bridge_each : List RebalancingAction → Call LiquidityPool ⊤
unfolding finish_bridge
bridge_each [] = pure tt
bridge_each (a ∷ actions) = do
  begin_bridge a.from_chain a.to_chain a.amount
  modify finish_bridge
  bridge_each actions

unfoldable pub rebalance : Call LiquidityPool (List RebalancingAction)
unfolding calculate_rebalancing_actions
rebalance = do
  planned ← gets (λ p. calculate_rebalancing_actions p.chains)
  modify λ p. record p { chains = planned.1 }
  bridge_each planned.0
  pure planned.0

-- The loop of `emergencyWithdraw`.
unfoldable pub withdraw_each : List LiquidityPosition → Table ChainInfo → Table ChainInfo
unfolding debit
withdraw_each [] chains = chains
withdraw_each (q ∷ positions) chains = withdraw_each positions (debit q.chain_id q.amount chains)

unfoldable pub emergency_withdraw : String → LiquidityPool → LiquidityPool
unfolding withdraw_each
emergency_withdraw provider p = record p {
  chains = withdraw_each (get_or (get provider p.positions) []) p.chains;
  positions = delete provider p.positions;
}

unfoldable pub toggle_emergency_mode : LiquidityPool → LiquidityPool
toggle_emergency_mode p = record p { is_emergency = not p.is_emergency }

-- `getPoolStats().totalLiquidity`
abbrev pub total_liquidity : Table ChainInfo → ℤ
total_liquidity [] = pos 0
total_liquidity ((k, c) ∷ chains) = c.current_liquidity +ℤ total_liquidity chains
