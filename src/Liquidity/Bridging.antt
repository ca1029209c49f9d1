-- ===== src/Liquidity/Bridging.antt =====
-- Bridges that overlap: each has a first half, with the checks, and a second half at its timeout.
use current_dao_contracts.Base.{
  ℕ, ⊤, ℤ, ◌+ℤ◌, ◌-ℤ◌, ◌≤ℤ◌, eqb, int_laws, true, false, some, List, [], ◌∷◌, ◌++◌, Table, find,
  put, find-put, ◌≡◌, refl, sym, ◌⊎◌, inl, inr, arith, ok, Option-cases,
}
use mathlib.Core.Path.{subst}
use current_dao_contracts.Liquidity.Defs.{
  ChainInfo, LiquidityPool, Transfer, credit, debit, begin_bridge, finish_bridge, bridge,
  toggle_emergency_mode, total_liquidity,
}
use current_dao_contracts.Liquidity.Totals.{
  total-credit, total-debit, Known, Known-credit, Known-debit,
}

-- One half of a bridge, or the switch of the emergency mode.
pub data Step (p : LiquidityPool) : LiquidityPool → Type 0 where
  begins : (source destination : ℕ) (amount : ℤ) → Step p (bridge source destination amount p).1
  finishes : Step p (finish_bridge p)
  toggles : Step p (toggle_emergency_mode p)

pub data Steps (p : LiquidityPool) : LiquidityPool → Type 0 where
  start : Steps p p
  next : {q r : LiquidityPool} → Steps p q → Step q r → Steps p r

-- Every bridge that waits is between chains that are there.
abbrev pub Served : Table ChainInfo → List Transfer → Type 0
Served chains [] = ⊤
Served chains (t ∷ ts) = Known t.source chains × Known t.destination chains × Served chains ts

Served-append :
    (chains : Table ChainInfo) (ts : List Transfer) (t : Transfer)
    → Served chains ts
    → Known t.source chains
    → Known t.destination chains
    → Served chains (ts ++ (t ∷ []))
Served-append chains [] t h s d = (s, d, tt)
Served-append chains (u ∷ ts) t (a, b, h) s d = (a, b, Served-append chains ts t h s d)

Served-move :
    (chains : Table ChainInfo) (t : Transfer) (ts : List Transfer)
    → Served chains ts
    → Served (credit t.destination t.amount (debit t.source t.amount chains)) ts
Served-move chains t [] h = tt
Served-move chains t (u ∷ ts) (a, b, h) =
    let debited = debit t.source t.amount chains in
    (
      Known-credit t.destination u.source t.amount debited
          (Known-debit t.source u.source t.amount chains a),
      Known-credit t.destination u.destination t.amount debited
          (Known-debit t.source u.destination t.amount chains b),
      Served-move chains t ts h,
    )

begin_writes :
    (source destination : ℕ) (amount : ℤ) (p : LiquidityPool)
    → ((bridge source destination amount p).1 ≡ p)
      ⊎ (Known source p.chains
          × Known destination p.chains
          × ((bridge source destination amount p).1 ≡ record p {
            waiting =
                p.waiting
                ++ (record { source = source; destination = destination; amount = amount } ∷ []);
          }))
unfolding bridge begin_bridge
begin_writes source destination amount p = elim (Option-cases (find source p.chains)) [
  | inl absent ↦ inl (ground arith)
  | inr (c, at) ↦ elim (Option-cases (find destination p.chains)) [
    | inl absent ↦ inl (ground arith)
    | inr (d, at_d) ↦
        let both : ((bridge source destination amount p).1 ≡ p)
            ⊎ ((bridge source destination amount p).1 ≡ record p {
              waiting =
                  p.waiting
                  ++ (record { source = source; destination = destination; amount = amount } ∷ []);
            }) =
          ground arith in
        elim both [ inl same ↦ inl same | inr wrote ↦ inr ((c, at), (d, at_d), wrote) ]
  ]
]

abbrev Holds : ℤ → LiquidityPool → Type 0
Holds total p = Served p.chains p.waiting × (total_liquidity p.chains ≡ total)

finish_writes :
    (p : LiquidityPool) (ts : List Transfer)
    → p.waiting ≡ ts
    → (finish_bridge p ≡ p)
      ⊎ ((t : Transfer) × (rest : List Transfer) × (p.waiting ≡ t ∷ rest)
          × (finish_bridge p ≡ record p {
            chains = credit t.destination t.amount (debit t.source t.amount p.chains);
            waiting = rest;
          }))
unfolding finish_bridge
finish_writes p [] is = inl (ground arith)
finish_writes p (t ∷ rest) is = inr (t, rest, is, ground arith)

finish-Holds : (total : ℤ) (p : LiquidityPool) → Holds total p → Holds total (finish_bridge p)
finish-Holds total p (served, same) = elim (finish_writes p p.waiting refl) [
  | inl idle ↦ subst (Holds total) (sym idle) (served, same)
  | inr (t, rest, is, wrote) ↦
      let (s, d, later) : Served p.chains (t ∷ rest) = subst (Served p.chains) is served in
      let debited = debit t.source t.amount p.chains in
      let (c, at) = s in
      let (e, at_e) = Known-debit t.source t.destination t.amount p.chains d in
      let down = total-debit t.source t.amount c p.chains at in
      let up = total-credit t.destination t.amount e debited at_e in
      subst (Holds total) (sym wrote) (Served-move p.chains t rest later, grind int_laws)
]

Step-Holds : {p q : LiquidityPool} (total : ℤ) → Step p q → Holds total p → Holds total q
unfolding toggle_emergency_mode
Step-Holds {p} total (begins source destination amount) h =
    elim (begin_writes source destination amount p) [
      | inl same ↦ subst (Holds total) (sym same) h
      | inr (s, d, wrote) ↦
          subst (Holds total) (sym wrote) (Served-append p.chains p.waiting _ h.0 s d, h.1)
    ]
Step-Holds {p} total finishes h = finish-Holds total p h
Step-Holds total toggles h = h

Steps-Holds : {p q : LiquidityPool} (total : ℤ) → Steps p q → Holds total p → Holds total q
Steps-Holds total start h = h
Steps-Holds total (next before s) h = Step-Holds total s (Steps-Holds total before h)

-- However the halves of bridges interleave, the chains hold as much in all as before, from a pool whose
-- waiting bridges are between chains that are there.
pub bridging_conserves :
    {p q : LiquidityPool}
    → Served p.chains p.waiting
    → Steps p q
    → total_liquidity q.chains ≡ total_liquidity p.chains
bridging_conserves {p} served steps =
    (Steps-Holds (total_liquidity p.chains) steps (served, refl)).1

begin_returns :
    (p : LiquidityPool) (source destination : ℕ) (m : ℤ) (c d : ChainInfo)
    → find source p.chains ≡ some c
    → find destination p.chains ≡ some d
    → c.active ≡ true
    → d.active ≡ true
    → m ≤ℤ c.current_liquidity
    → begin_bridge source destination m p ≡ (
      ok tt,
      record p {
        waiting =
            p.waiting ++ (record { source = source; destination = destination; amount = m } ∷ []);
      },
    )
unfolding begin_bridge
begin_returns p source destination m c d at at_d on on_d fits = ground arith

-- A bridge takes its amount from the one chain and leaves what the other chains have.
move_takes :
    (source destination : ℕ) (m : ℤ) (c : ChainInfo) (chains : Table ChainInfo)
    → eqb source destination ≡ false
    → find source chains ≡ some c
    → (c' : ChainInfo) × (find source (credit destination m (debit source m chains)) ≡ some c')
      × (c'.current_liquidity ≡ c.current_liquidity -ℤ m)
unfolding credit debit
move_takes source destination m c chains apart at =
    let c' : ChainInfo = record c { current_liquidity = c.current_liquidity -ℤ m } in
    let debited = put source c' chains in
    let here = find-put source source c' chains in
    elim (Option-cases (find destination debited)) [
      | inl absent ↦ (c', ground arith, refl)
      | inr (d, at_d) ↦
          let d' : ChainInfo = record d { current_liquidity = d.current_liquidity +ℤ m } in
          let there = find-put destination source d' debited in (c', ground arith, refl)
    ]

-- Two bridges from one chain that overlap are both accepted if each finds its amount there: the chain
-- pays both, also when it has not enough for both.
pub overlap_overdraws :
    (p : LiquidityPool) (source destination : ℕ) (m n : ℤ) (c d : ChainInfo)
    → p.waiting ≡ []
    → find source p.chains ≡ some c
    → find destination p.chains ≡ some d
    → eqb source destination ≡ false
    → c.active ≡ true
    → d.active ≡ true
    → m ≤ℤ c.current_liquidity
    → n ≤ℤ c.current_liquidity
    → let p1 = (begin_bridge source destination m p).1 in
      let p2 = (begin_bridge source destination n p1).1 in
      ((begin_bridge source destination m p).0 ≡ ok tt)
      × ((begin_bridge source destination n p1).0 ≡ ok tt)
      × ((c' : ChainInfo) × (find source (finish_bridge (finish_bridge p2)).chains ≡ some c')
          × (c'.current_liquidity ≡ c.current_liquidity -ℤ m -ℤ n))
unfolding finish_bridge
overlap_overdraws p source destination m n c d idle at at_d apart on on_d fits fits' =
    let p1 = (begin_bridge source destination m p).1 in
    let first = begin_returns p source destination m c d at at_d on on_d fits in
    let at1 : find source p1.chains ≡ some c = ground (arith, first) in
    let at_d1 : find destination p1.chains ≡ some d = ground (arith, first) in
    let second = begin_returns p1 source destination n c d at1 at_d1 on on_d fits' in
    let (c1, found1, less) = move_takes source destination m c p.chains apart at in
    let moved = credit destination m (debit source m p.chains) in
    let (c2, found2, less') = move_takes source destination n c1 moved apart found1 in
    (
      ground (arith, first),
      ground (arith, second),
      (c2, ground (arith, first, second), ground (arith)),
    )
