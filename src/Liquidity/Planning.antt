-- ===== src/Liquidity/Planning.antt =====
-- What the calculation of the rebalancing does to the chains.
use current_dao_contracts.Base.{
  ℕ, ⊤, ℤ, pos, ◌+ℤ◌, ◌-ℤ◌, ◌<ℤ◌, ltb_ℤ, leb_ℤ, eqb, int_laws, Bool, ◌&&◌, List, [], ◌∷◌, ◌++◌,
  Table, values, filter, ◌≡◌, sym, inl, inr, arith, Bool-cases,
}
use mathlib.Core.Path.{subst}
use current_dao_contracts.Liquidity.Defs.{
  ChainInfo, RebalancingAction, credit, min, plan_from, plan_all, calculate_rebalancing_actions,
  total_liquidity,
}
use current_dao_contracts.Liquidity.Totals.{total-credit, Known, Known-credit}

abbrev pub total_amount : List RebalancingAction → ℤ
total_amount [] = pos 0
total_amount (a ∷ actions) = a.amount +ℤ total_amount actions

abbrev pub AllPositive : List RebalancingAction → Type 0
AllPositive [] = ⊤
AllPositive (a ∷ actions) = (pos 0 <ℤ a.amount) × AllPositive actions

-- Every chain is stored under its own id.
abbrev pub IsIndexed : Table ChainInfo → Type 0
IsIndexed [] = ⊤
IsIndexed ((k, c) ∷ chains) = (k ≡ c.chain_id) × IsIndexed chains

abbrev AllKnown : List ChainInfo → Table ChainInfo → Type 0
AllKnown [] chains = ⊤
AllKnown (d ∷ ds) chains = Known d.chain_id chains × AllKnown ds chains

AllKnown-credit :
    (id : ℕ) (amount : ℤ) (ds : List ChainInfo) (chains : Table ChainInfo)
    → AllKnown ds chains
    → AllKnown ds (credit id amount chains)
AllKnown-credit id amount [] chains h = tt
AllKnown-credit id amount (d ∷ ds) chains (k, h) =
    (Known-credit id d.chain_id amount chains k, AllKnown-credit id amount ds chains h)

total-append :
    (l r : List RebalancingAction) → total_amount (l ++ r) ≡ total_amount l +ℤ total_amount r
total-append [] r = grind int_laws
total-append (a ∷ l) r = let ih = total-append l r in grind int_laws

AllPositive-append :
    (l r : List RebalancingAction) → AllPositive l → AllPositive r → AllPositive (l ++ r)
AllPositive-append [] r h k = k
AllPositive-append (a ∷ l) r (p, h) k = (p, AllPositive-append l r h k)

-- What a plan does: the chains gain what its actions are to move, and nothing is taken from any.
record Planned (chains : Table ChainInfo) (deficits : List ChainInfo)
    (plan : List RebalancingAction × Table ChainInfo) : Type 0 where
  pub gains : total_liquidity plan.1 ≡ total_liquidity chains +ℤ total_amount plan.0
  pub positive : AllPositive plan.0
  pub known : AllKnown deficits plan.1

plan_from-Planned :
    (source : ℕ) (surplus : ℤ) (deficits all : List ChainInfo) (chains : Table ChainInfo)
    → AllKnown deficits chains
    → AllKnown all chains
    → Planned chains all (plan_from source surplus deficits chains)
unfolding plan_from
plan_from-Planned source surplus [] all chains h k = record {
  gains = grind int_laws;
  positive = tt;
  known = k;
}
plan_from-Planned source surplus (d ∷ deficits) all chains ((c, at), h) k =
    let now = c.current_liquidity in
    let to_move = min surplus (d.target_liquidity -ℤ now) in
    let credited = credit d.chain_id to_move chains in
    let moved =
      plan_from-Planned source (surplus -ℤ to_move) deficits all credited
        (AllKnown-credit d.chain_id to_move deficits chains h)
        (AllKnown-credit d.chain_id to_move all chains k) in
    let skipped = plan_from-Planned source surplus deficits all chains h k in
    let more = plan_from source (surplus -ℤ to_move) deficits credited in
    let action : RebalancingAction = record {
      from_chain = source;
      to_chain = d.chain_id;
      amount = to_move;
    } in
    let gained = total-credit d.chain_id to_move c chains at in
    elim (Bool-cases (leb_ℤ surplus (pos 0))) [
      | inl over ↦
          let same : plan_from source surplus (d ∷ deficits) chains ≡ ([], chains) = ground arith in
          subst (Planned chains all) (sym same)
            (record { gains = grind int_laws; positive = tt; known = k })
      | inr left ↦ elim (Bool-cases (ltb_ℤ (pos 0) to_move)) [
        | inl moves ↦
            let same : plan_from source surplus (d ∷ deficits) chains ≡ (action ∷ more.0, more.1) =
              ground arith in
            let gains = moved.gains in
            subst (Planned chains all) (sym same) (record {
              gains = grind int_laws;
              positive = (ground arith, moved.positive);
              known = moved.known;
            })
        | inr idle ↦
            let same : plan_from source surplus (d ∷ deficits) chains
                ≡ plan_from source surplus deficits chains =
              ground arith in
            subst (Planned chains all) (sym same) skipped
      ]
    ]

plan_all-Planned :
    (excess deficits : List ChainInfo) (chains : Table ChainInfo)
    → AllKnown deficits chains
    → Planned chains deficits (plan_all excess deficits chains)
unfolding plan_all
plan_all-Planned [] deficits chains h = record { gains = grind int_laws; positive = tt; known = h }
plan_all-Planned (c ∷ excess) deficits chains h =
    let surplus = c.current_liquidity -ℤ c.target_liquidity in
    let one = plan_from c.chain_id surplus deficits chains in
    let first = plan_from-Planned c.chain_id surplus deficits deficits chains h h in
    let two = plan_all excess deficits one.1 in
    let rest = plan_all-Planned excess deficits one.1 first.known in
    let sum = total-append one.0 two.0 in
    let g = first.gains in
    let g' = rest.gains in
    record {
      gains = grind int_laws;
      positive = AllPositive-append one.0 two.0 first.positive rest.positive;
      known = rest.known;
    }

AllKnown-cons :
    (k : ℕ) (c : ChainInfo) (ds : List ChainInfo) (chains : Table ChainInfo)
    → AllKnown ds chains
    → AllKnown ds ((k, c) ∷ chains)
AllKnown-cons k c [] chains h = tt
AllKnown-cons k c (d ∷ ds) chains ((e, at), h) = (
  elim (Bool-cases (eqb k d.chain_id)) [
    | inl here ↦ (c, ground arith)
    | inr elsewhere ↦ (e, ground arith)
  ],
  AllKnown-cons k c ds chains h,
)

AllKnown-values : (chains : Table ChainInfo) → IsIndexed chains → AllKnown (values chains) chains
AllKnown-values [] h = tt
AllKnown-values ((k, c) ∷ chains) (same, h) =
    ((c, ground arith), AllKnown-cons k c (values chains) chains (AllKnown-values chains h))

AllKnown-filter :
    (keep : ChainInfo → Bool) (ds : List ChainInfo) (chains : Table ChainInfo)
    → AllKnown ds chains
    → AllKnown (filter keep ds) chains
AllKnown-filter keep [] chains h = tt
AllKnown-filter keep (d ∷ ds) chains (k, h) = elim (Bool-cases (keep d)) [
  | inl kept ↦ rw kept (k, AllKnown-filter keep ds chains h)
  | inr dropped ↦ rw dropped (AllKnown-filter keep ds chains h)
]

-- The calculation of the rebalancing adds to the chains, in all, the amounts of its actions, each of
-- which is positive, before any of them is bridged, if every chain is stored under its own id.
pub planning_creates :
    (chains : Table ChainInfo)
    → IsIndexed chains
    → let (actions, later) = calculate_rebalancing_actions chains in
      (total_liquidity later ≡ total_liquidity chains +ℤ total_amount actions) × AllPositive actions
unfolding calculate_rebalancing_actions
planning_creates chains h =
    let deficit : ChainInfo → Bool =
      λ c. c.active && ltb_ℤ c.current_liquidity c.target_liquidity in
    let excess : ChainInfo → Bool = λ c. c.active && ltb_ℤ c.target_liquidity c.current_liquidity in
    let p =
      plan_all-Planned (filter excess (values chains)) (filter deficit (values chains)) chains
        (AllKnown-filter deficit (values chains) chains (AllKnown-values chains h)) in
    (p.gains, p.positive)
