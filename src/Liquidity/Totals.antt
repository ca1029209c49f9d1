-- ===== src/Liquidity/Totals.antt =====
-- The total of the chains, and what bridging does to it.
use current_dao_contracts.Base.{
  ℕ, ℤ, ◌+ℤ◌, ◌-ℤ◌, eqb, int_laws, some, [], ◌∷◌, Table, find, put, find-put, ◌≡◌, inl, inr, arith,
  Option-cases, Bool-cases,
}
use current_dao_contracts.Liquidity.Defs.{ChainInfo, credit, debit, total_liquidity}

total-put :
    (id : ℕ) (c d : ChainInfo) (chains : Table ChainInfo)
    → find id chains ≡ some c
    → total_liquidity (put id d chains) +ℤ c.current_liquidity
      ≡ total_liquidity chains +ℤ d.current_liquidity
unfolding put
total-put id c d [] at = cc
total-put id c d ((k, w) ∷ chains) at = elim (Bool-cases (eqb k id)) [
  | inl here ↦ grind int_laws
  | inr elsewhere ↦
      let at' : find id chains ≡ some c = ground arith in
      let ih = total-put id c d chains at' in grind int_laws
]

pub total-credit :
    (id : ℕ) (amount : ℤ) (c : ChainInfo) (chains : Table ChainInfo)
    → find id chains ≡ some c
    → total_liquidity (credit id amount chains) ≡ total_liquidity chains +ℤ amount
unfolding credit
total-credit id amount c chains at =
    let d : ChainInfo = record c { current_liquidity = c.current_liquidity +ℤ amount } in
    let h = total-put id c d chains at in grind int_laws

pub total-debit :
    (id : ℕ) (amount : ℤ) (c : ChainInfo) (chains : Table ChainInfo)
    → find id chains ≡ some c
    → total_liquidity (debit id amount chains) ≡ total_liquidity chains -ℤ amount
unfolding debit
total-debit id amount c chains at =
    let d : ChainInfo = record c { current_liquidity = c.current_liquidity -ℤ amount } in
    let h = total-put id c d chains at in grind int_laws

-- The chain is there.
abbrev pub Known : ℕ → Table ChainInfo → Type 0
Known id chains = (c : ChainInfo) × (find id chains ≡ some c)

Known-put :
    (id k : ℕ) (d : ChainInfo) (chains : Table ChainInfo)
    → Known k chains
    → Known k (put id d chains)
Known-put id k d chains (c, at) = elim (Bool-cases (eqb id k)) [
  | inl here ↦ (d, ground (arith, find-put id k d chains))
  | inr elsewhere ↦ (c, ground (arith, find-put id k d chains))
]

pub Known-credit :
    (id k : ℕ) (amount : ℤ) (chains : Table ChainInfo)
    → Known k chains
    → Known k (credit id amount chains)
unfolding credit
Known-credit id k amount chains h = elim (Option-cases (find id chains)) [
  | inl absent ↦ rw (absent, credit) h
  | inr (c, at) ↦
      rw (at, credit)
        (Known-put id k (record c { current_liquidity = c.current_liquidity +ℤ amount }) chains h)
]

pub Known-debit :
    (id k : ℕ) (amount : ℤ) (chains : Table ChainInfo)
    → Known k chains
    → Known k (debit id amount chains)
unfolding debit
Known-debit id k amount chains h = elim (Option-cases (find id chains)) [
  | inl absent ↦ rw (absent, debit) h
  | inr (c, at) ↦
      rw (at, debit)
        (Known-put id k (record c { current_liquidity = c.current_liquidity -ℤ amount }) chains h)
]
