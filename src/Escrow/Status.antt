-- ===== src/Escrow/Status.antt =====
-- The status of a trade moves along the transitions of TradeStructure.ts only.
use current_dao_contracts.Base.{
  ℕ, suc, ◌≤◌, ℤ, String, true, none, some, Table, find, put, find-put, eqb, ◌≡◌, refl, sym, ◌⊎◌,
  inl, inr, arith, ok, Option-cases, Bool-cases, Outcome-cases,
}
use current_dao_contracts.Base.Keeps.{Keeps}
use mathlib.Core.Path.{subst}
use current_dao_contracts.Escrow.Trade.{
  EscrowStatus, pending, EnergyTrade, new_trade, with_status, allows, is_over,
}
use current_dao_contracts.Escrow.State.{EnergyEscrow, new, update_status, get_trade_or_throw}
use current_dao_contracts.Escrow.Trading.{open_trade}
use current_dao_contracts.Escrow.Steps.{IsKept, Runs-keeps}
use current_dao_contracts.Escrow.Methods.{Runs, Reach, from}
use current_dao_contracts.Escrow.Frames.{
  SameTrades, audit-SameTrades, dispute-SameTrades, close-SameTrades, request-SameTrades,
  approval-SameTrades, execution-SameTrades,
}

-- Any number of allowed transitions.
pub data Leads : EscrowStatus → EscrowStatus → Type 0 where
  stays : (s : EscrowStatus) → Leads s s
  moves : (s t u : EscrowStatus) → Leads s t → allows t u ≡ true → Leads s u

-- The same trade later.
pub record Later (t t' : EnergyTrade) : Type 0 where
  pub status : Leads t.status t'.status
  pub buyer : t'.buyer ≡ t.buyer
  pub seller : t'.seller ≡ t.seller
  pub mediator : t'.mediator ≡ t.mediator
  pub amount : t'.currency_amount ≡ t.currency_amount

-- The ids from `next` on are free, and every trade of `before` is there, later.
pub record IsLater (before : Table EnergyTrade) (next : ℕ) (trades : Table EnergyTrade)
    : Type 0 where
  pub fresh : (k : ℕ) → next ≤ k → find k trades ≡ none
  pub stored :
      (k : ℕ) (t : EnergyTrade)
      → find k before ≡ some t
      → (t' : EnergyTrade) × (find k trades ≡ some t') × Later t t'

abbrev pub Follows : Table EnergyTrade → EnergyEscrow → Type 0
Follows before e = IsLater before e.next_trade_id e.trades

pub update_writes :
    (id : ℕ) (next : EscrowStatus) (e : EnergyEscrow)
    → ((update_status id next e).1 ≡ e)
      ⊎ ((t : EnergyTrade) × (find id e.trades ≡ some t)
          × (allows t.status next ≡ true)
          × ((update_status id next e).1
              ≡ record e { trades = put id (record t { status = next }) e.trades }))
unfolding update_status get_trade_or_throw with_status
update_writes id next e = elim (Option-cases (find id e.trades)) [
  | inl absent ↦ inl (ground arith)
  | inr (t, at) ↦ elim (Bool-cases (allows t.status next)) [
    | inl allowed ↦ inr (t, at, allowed, ground arith)
    | inr refused ↦ inl (ground arith)
  ]
]

-- Writing the status of a stored trade.
IsLater-put :
    (before : Table EnergyTrade) (next : ℕ) (trades : Table EnergyTrade) (id : ℕ) (t : EnergyTrade)
    (s : EscrowStatus)
    → find id trades ≡ some t
    → allows t.status s ≡ true
    → IsLater before next trades
    → IsLater before next (put id (record t { status = s }) trades)
IsLater-put before next trades id t s at allowed h = record {
  fresh =
      λ k above. ground (arith, h.fresh k above, find-put id k (record t { status = s }) trades);
  stored = λ k u was.
      let (t', now_at, later) = h.stored k u was in
      elim (Bool-cases (eqb id k)) [
        | inl here ↦
            let same : t ≡ t' = ground (arith) in
            (
              record t { status = s },
              ground (arith, find-put id k (record t { status = s }) trades),
              rw same (record {
                status =
                    moves _ _ _ later.status
                      (subst (λ (v : EnergyTrade). allows v.status s ≡ true) same allowed);
                buyer = later.buyer;
                seller = later.seller;
                mediator = later.mediator;
                amount = later.amount;
              }),
            )
        | inr elsewhere ↦
            (t', ground (arith, find-put id k (record t { status = s }) trades), later)
      ];
}

update-Follows :
    (before : Table EnergyTrade) (id : ℕ) (next : EscrowStatus)
    → Keeps (Follows before) (update_status id next)
update-Follows before id next = record {
  on = λ e h. elim (update_writes id next e) [
    | inl same ↦ subst (Follows before) (sym same) h
    | inr (t, at, allowed, wrote) ↦
        subst (Follows before) (sym wrote)
          (IsLater-put before e.next_trade_id e.trades id t next at allowed h)
  ];
}

IsLater-open :
    (before : Table EnergyTrade) (next : ℕ) (trades : Table EnergyTrade) (t : EnergyTrade)
    → IsLater before next trades
    → IsLater before (suc next) (put next t trades)
IsLater-open before next trades t h = record {
  fresh = λ k above. ground (arith, h.fresh k (omega arith), find-put next k t trades);
  stored = λ k u was.
      let (t', now_at, later) = h.stored k u was in
      (t', ground (arith, h.fresh next (omega arith), find-put next k t trades), later);
}

IsLater-skip :
    (before : Table EnergyTrade) (next : ℕ) (trades : Table EnergyTrade)
    → IsLater before next trades
    → IsLater before (suc next) trades
IsLater-skip before next trades h = record {
  fresh = λ k above. h.fresh k (omega arith);
  stored = h.stored;
}

pub open_writes :
    (now : ℤ) (b s m : String) (amount watt time : ℤ) (count : ℕ) (e : EnergyEscrow)
    → ((open_trade now b s m amount watt time count e).1
        ≡ record e { next_trade_id = suc e.next_trade_id })
      ⊎ ((t : EnergyTrade) × (t.status ≡ pending)
          × ((open_trade now b s m amount watt time count e).1 ≡ record e {
            next_trade_id = suc e.next_trade_id;
            trades = put e.next_trade_id t e.trades;
          }))
unfolding open_trade new_trade
open_writes now b s m amount watt time count e =
    elim (Outcome-cases (
      new_trade now e.next_trade_id b s m watt (record { num = amount; den = watt }) amount time
        count)) [
          | inl (t, made) ↦ inr (t, ground arith, ground arith)
          | inr (why, refused) ↦ inl (ground arith)
        ]

open-Follows :
    (before : Table EnergyTrade) (now : ℤ) (b s m : String) (amount watt time : ℤ) (count : ℕ)
    → Keeps (Follows before) (open_trade now b s m amount watt time count)
open-Follows before now b s m amount watt time count = record {
  on = λ e h. elim (open_writes now b s m amount watt time count e) [
    | inl skipped ↦
        subst (Follows before) (sym skipped) (IsLater-skip before e.next_trade_id e.trades h)
    | inr (t, _, wrote) ↦
        subst (Follows before) (sym wrote) (IsLater-open before e.next_trade_id e.trades t h)
  ];
}

pub Follows-same :
    (before : Table EnergyTrade) (e f : EnergyEscrow)
    → SameTrades e f
    → Follows before e
    → Follows before f
Follows-same before e f same h = record {
  fresh = λ k above. ground (arith, same.trades, same.next, h.fresh k (ground (arith, same.next)));
  stored =
      λ k t was. let (t', at, later) = h.stored k t was in (t', ground (arith, same.trades), later);
}

pub Follows-IsKept : (before : Table EnergyTrade) → IsKept (Follows before)
Follows-IsKept before = record {
  limited = λ s operations entered h. h;
  audited = λ now action actor details. record {
    on = λ e h. Follows-same before e _ (audit-SameTrades now action actor details e) h;
  };
  moved = update-Follows before;
  opened = open-Follows before;
  disputed = λ now id c r reason evidence. record {
    on = λ e h. Follows-same before e _ (dispute-SameTrades now id c r reason evidence e) h;
  };
  closed = λ now id r caller. record {
    on = λ e h. Follows-same before e _ (close-SameTrades now id r caller e) h;
  };
  requested = λ now id c reason required. record {
    on = λ e h. Follows-same before e _ (request-SameTrades now id c reason required e) h;
  };
  approved = λ id caller. record {
    on = λ e h. Follows-same before e _ (approval-SameTrades id caller e) h;
  };
  executed = λ now id to caller. record {
    on = λ e h. Follows-same before e _ (execution-SameTrades now id to caller e) h;
  };
  delivered = λ s milestones next emitted h. h;
  settings = λ s admin paused penalty period approvals h. h;
}

-- Nothing is stored under an id that is not given out yet.
abbrev pub IsFresh : EnergyEscrow → Type 0
IsFresh e = (k : ℕ) → e.next_trade_id ≤ k → find k e.trades ≡ none

pub Follows-start : (e : EnergyEscrow) → IsFresh e → Follows e.trades e
Follows-start e fresh = record {
  fresh = fresh;
  stored = λ k t at. (
    t,
    at,
    record { status = stays _; buyer = refl; seller = refl; mediator = refl; amount = refl },
  );
}

-- Whatever calls are made by anybody, a trade stays stored under its id with its buyer, seller, mediator
-- and amount, and its status moves along allowed transitions only.
pub status_moves_along :
    {e f : EnergyEscrow}
    → (id : ℕ) (t : EnergyTrade) → IsFresh e
    → Runs e f
    → find id e.trades ≡ some t
    → (t' : EnergyTrade) × (find id f.trades ≡ some t') × Later t t'
status_moves_along {e} id t fresh runs at =
    (Runs-keeps (Follows-IsKept e.trades) runs (Follows-start e fresh)).stored id t at

pub new-IsFresh : (now : ℤ) (admin : String) (e : EnergyEscrow) → new now admin ≡ ok e → IsFresh e
unfolding new
new-IsFresh now admin e made = λ k above. ground arith

pub Reach-IsFresh : {e : EnergyEscrow} → Reach e → IsFresh e
Reach-IsFresh (from {e = e} {f = f} now admin made runs) =
    (Runs-keeps (Follows-IsKept e.trades) runs
      (Follows-start e (new-IsFresh now admin e made))).fresh

over_stays : (s u : EscrowStatus) → is_over s ≡ true → Leads s u → u ≡ s
over_stays s u over (stays _) = refl
over_stays s u over (moves _ t _ before allowed) =
    let same = over_stays s t over before in ground arith

-- In a state that calls lead to from a new contract, a completed or cancelled trade keeps its status
-- whatever calls follow.
pub over_is_final :
    {e f : EnergyEscrow}
    → (id : ℕ) (t : EnergyTrade) → Reach e
    → Runs e f
    → find id e.trades ≡ some t
    → is_over t.status ≡ true
    → (t' : EnergyTrade) × (find id f.trades ≡ some t') × (t'.status ≡ t.status)
over_is_final {e} id t reach runs at over =
    let (t', found, later) = status_moves_along id t (Reach-IsFresh reach) runs at in
    (t', found, over_stays t.status t'.status over later.status)
