-- ===== src/Escrow/Vouched.antt =====
-- What the approvals of a stored emergency request are, and the writes that leave them so.
use current_dao_contracts.Base.{
  ℕ, suc, ◌≤◌, pos, ◌≤ℤ◌, length, String, ◌==◌, true, List, [], ◌∷◌, some, Table, find, put,
  find-put, eqb, has, ⊤, ◌≡◌, sym, ap, ◌∙◌, inl, inr, arith, Bool-cases, if◌then◌else◌,
}
use mathlib.Core.Path.{subst}
use current_dao_contracts.Escrow.Trade.{EnergyTrade, EmergencyRequest}
use current_dao_contracts.Escrow.Checks.{participants}
use current_dao_contracts.Escrow.State.{EnergyEscrow}
use current_dao_contracts.Escrow.Status.{Follows, IsFresh, Later}

abbrev pub count : String → List String → ℕ
count who [] = 0
count who (a ∷ l) = let rest = count who l in if a == who then suc rest else rest

-- Each account is a participant of the trade.
abbrev pub Parties : Table EnergyTrade → ℕ → List String → Type 0
Parties trades trade_id [] = ⊤
Parties trades trade_id (a ∷ l) =
    ((t : EnergyTrade) × (find trade_id trades ≡ some t) × (has a (participants t) ≡ true))
    × Parties trades trade_id l

pub record IsVouched (trades : Table EnergyTrade) (r : EmergencyRequest) : Type 0 where
  pub once : (who : String) → count who r.approvals ≤ 1
  pub parties : Parties trades r.trade_id r.approvals
  pub enough : r.executed ≡ true → r.required_approvals ≤ℤ pos (length r.approvals)

abbrev pub AllVouched : EnergyEscrow → Type 0
AllVouched e =
    IsFresh e
    × ((id : ℕ) (r : EmergencyRequest)
        → find id e.emergency_requests ≡ some r
        → IsVouched e.trades r)

Parties-Later :
    (before trades : Table EnergyTrade) (id : ℕ) (l : List String)
    → ((k : ℕ) (t : EnergyTrade)
        → find k before ≡ some t
        → (t' : EnergyTrade) × (find k trades ≡ some t') × Later t t')
    → Parties before id l
    → Parties trades id l
Parties-Later before trades id [] kept h = tt
Parties-Later before trades id (a ∷ l) kept ((t, at, is_party), rest) =
    let (t', now_at, later) = kept id t at in
    let same : participants t' ≡ participants t = cc (later.buyer, later.seller, later.mediator) in
    ((t', now_at, ap (has a) same ∙ is_party), Parties-Later before trades id l kept rest)

-- Trades may go on and new ones may come, if the requests are the same.
pub AllVouched-Follows :
    (e f : EnergyEscrow)
    → Follows e.trades f
    → f.emergency_requests ≡ e.emergency_requests
    → AllVouched e
    → AllVouched f
AllVouched-Follows e f follows same (fresh, vouched) = (
  follows.fresh,
  λ id r at.
      let v = vouched id r (ap (find id) (sym same) ∙ at) in
      record {
        once = v.once;
        parties = Parties-Later e.trades f.trades r.trade_id r.approvals follows.stored v.parties;
        enough = v.enough;
      },
)

-- Writing a request with its approvals vouched.
pub AllVouched-put :
    (e f : EnergyEscrow) (id : ℕ) (r : EmergencyRequest)
    → f.trades ≡ e.trades
    → f.next_trade_id ≡ e.next_trade_id
    → f.emergency_requests ≡ put id r e.emergency_requests
    → IsVouched e.trades r
    → AllVouched e
    → AllVouched f
AllVouched-put e f id r same next wrote v (fresh, vouched) = (
  λ k above. ap (find k) same ∙ fresh k (ground (arith, next)),
  λ k q at. rw same (elim (Bool-cases (eqb id k)) [
    | inl here ↦
        let is_r : r ≡ q = ground (arith, find-put id k r e.emergency_requests, wrote) in
        subst (IsVouched e.trades) is_r v
    | inr elsewhere ↦ vouched k q (ground (arith, find-put id k r e.emergency_requests, wrote))
  ]),
)
