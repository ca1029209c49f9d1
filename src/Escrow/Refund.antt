-- ===== src/Escrow/Refund.antt =====
-- What the cancellation of an active trade releases, when it is asked for again.
use current_dao_contracts.Base.{
  ℕ, ◌+◌, ◌≤◌, ◌<◌, length, length-append, leb, ℤ, pos, ◌<ℤ◌, String, str_eq_refl, eq_iff, true,
  false, none, some, List, [], ◌∷◌, ◌++◌, find, Dict, IsKeyed, get-set, set-IsKeyed, ◌≡◌, refl, ◌∙◌,
  ap, ◌⊎◌, arith, ok, throws, concat,
}
use current_dao_contracts.Escrow.Text.{is_valid_address, sanitize_string}
use current_dao_contracts.Escrow.Checks.{validate_addresses, validate_amount}
use current_dao_contracts.Escrow.Limiter.{recent, cleanup, check_operation}
use current_dao_contracts.Escrow.Trade.{
  whole, EscrowStatus, EnergyTrade, active, cancelled, status_name, with_status,
}
use current_dao_contracts.Escrow.State.{
  EnergyEscrow, Event, tokens_released, guards, when_not_paused, check_rate_limit, non_reentrant,
  get_trade_or_throw, add_audit_entry, emit_event, update_status, release_tokens,
}
use current_dao_contracts.Escrow.Window.{times_of, cleanup-times, cleanup-IsKeyed}
use current_dao_contracts.Escrow.Trading.{refund_if, cancel_escrow}

recent_le : (window now : ℤ) (ts : List ℤ) → length (recent window now ts) ≤ length ts
recent_le window now [] = omega arith
recent_le window now (t ∷ ts) = ground (arith, recent_le window now ts)

-- An actor with fewer operations than the maximum is allowed one, and has one more then.
check_room :
    (max : ℕ) (window now : ℤ) (who : String) (m : Dict (List ℤ))
    → IsKeyed m
    → length (times_of who m) < max
    → let (passed, next) = check_operation max window now who m in
      (passed ≡ true) × IsKeyed next × (length (times_of who next) ≤ length (times_of who m) + 1)
unfolding check_operation
check_room max window now who m keyed room =
    let c = cleanup window now m in
    let times = recent window now (times_of who c) in
    let v = times ++ (now ∷ []) in
    let fewer : length (times_of who c) ≤ length (times_of who m) =
      ground (arith, cleanup-times who window now m keyed, recent_le window now (times_of who m)) in
    let fewer' = recent_le window now (times_of who c) in
    let open_ : leb max (length times) ≡ false = ground arith in
    (
      ground arith,
      rw open_ (set-IsKeyed who v c (cleanup-IsKeyed window now m keyed)),
      ground (arith, get-set who who v c, str_eq_refl who, length-append times (now ∷ [])),
    )

-- The contract runs, and the caller has at most n operations in the rate limiter.
abbrev pub HasRoom : String → ℕ → EnergyEscrow → Type 0
HasRoom caller n e =
    (e.paused ≡ false)
    × (e.entered ≡ false)
    × IsKeyed e.operations
    × (length (times_of caller e.operations) ≤ n)

guards_pass :
    (now : ℤ) (caller : String) (n : ℕ) (e : EnergyEscrow)
    → HasRoom caller n e
    → n < 10
    → ((guards now caller e).0 ≡ ok tt)
      × HasRoom caller (n + 1) (guards now caller e).1
      × ((guards now caller e).1.trades ≡ e.trades)
      × ((guards now caller e).1.emitted ≡ e.emitted)
      × ((guards now caller e).1.admin ≡ e.admin)
unfolding guards when_not_paused check_rate_limit non_reentrant
guards_pass now caller n e (running, outside, keyed, few) less =
    let (passed, next_keyed, more) =
      check_room 10 (pos 60000) now caller e.operations keyed (omega arith) in
    (
      ground arith,
      (ground arith, ground arith, ground arith, ground arith),
      ground arith,
      ground arith,
      ground arith,
    )

-- The caller may release a trade for being its buyer or the administrator.
abbrev pub MayRelease : String → EnergyTrade → EnergyEscrow → Type 0
MayRelease caller t e = (caller ≡ t.buyer) ⊎ (caller ≡ e.admin)

abbrev pub refund_of : ℤ → ℕ → EnergyTrade → Event
refund_of now id t = record {
  timestamp = now;
  content = tokens_released id t.buyer (whole t.currency_amount) none;
}

release_passes :
    (now : ℤ) (id : ℕ) (caller : String) (n : ℕ) (e : EnergyEscrow) (t : EnergyTrade)
    → HasRoom caller n e
    → n < 10
    → find id e.trades ≡ some t
    → MayRelease caller t e
    → is_valid_address t.buyer ≡ true
    → pos 0 <ℤ t.currency_amount
    → let (r, f) = release_tokens now id t.buyer (whole t.currency_amount) caller none e in
      (r ≡ ok true)
      × HasRoom caller (n + 1) f
      × (f.trades ≡ e.trades)
      × (f.emitted ≡ e.emitted ++ (refund_of now id t ∷ []))
      × (f.admin ≡ e.admin)
unfolding release_tokens get_trade_or_throw add_audit_entry emit_event validate_addresses
    validate_amount
release_passes now id caller n e t room less at may valid positive =
    let (passed, (running, outside, keyed, few), still, before, same) =
      guards_pass now caller n e room less in
    let buyer = eq_iff caller t.buyer in
    let admin = eq_iff caller e.admin in
    (
      ground arith,
      (ground arith, ground arith, ground arith, ground arith),
      ground arith,
      ground arith,
      ground arith,
    )

refused_message :
    (s : EscrowStatus)
    → s ≡ active
    → concat (
        "TradeStructure: Invalid status transition from "
        ∷ status_name s
        ∷ " to "
        ∷ status_name cancelled
        ∷ [])
      ≡ "TradeStructure: Invalid status transition from ACTIVE to CANCELLED"
refused_message s running = rw running refl

-- One cancellation of an active trade.
refunds :
    (now : ℤ) (id : ℕ) (reason clean caller : String) (n : ℕ) (e : EnergyEscrow) (t : EnergyTrade)
    → HasRoom caller n e
    → n + 1 < 10
    → find id e.trades ≡ some t
    → t.status ≡ active
    → MayRelease caller t e
    → is_valid_address t.buyer ≡ true
    → pos 0 <ℤ t.currency_amount
    → sanitize_string reason 500 ≡ ok clean
    → let (r, f) = cancel_escrow now id reason caller e in
      (r ≡ throws "TradeStructure: Invalid status transition from ACTIVE to CANCELLED")
      × HasRoom caller (n + 2) f
      × (f.trades ≡ e.trades)
      × (f.emitted ≡ e.emitted ++ (refund_of now id t ∷ []))
      × (f.admin ≡ e.admin)
unfolding cancel_escrow refund_if update_status with_status get_trade_or_throw
refunds now id reason clean caller n e t room less at running may valid positive cleaned =
    let (passed, room', still, before, same) = guards_pass now caller n e room (omega arith) in
    let g = (guards now caller e).1 in
    let at' : find id g.trades ≡ some t = ground arith in
    let may' : MayRelease caller t g = ground arith in
    let (released, (a, b, c, d), still', announced, same') =
      release_passes now id caller (n + 1) g t room' (omega arith) at' may' valid positive in
    let buyer = eq_iff caller t.buyer in
    let admin = eq_iff caller e.admin in
    let message = refused_message t.status running in
    let refused : (cancel_escrow now id reason caller e).0
        ≡ throws (
            concat (
              "TradeStructure: Invalid status transition from "
              ∷ status_name t.status
              ∷ " to "
              ∷ status_name cancelled
              ∷ [])) =
      ground arith in
    (
      refused ∙ ap throws message,
      (ground arith, ground arith, ground arith, ground arith),
      ground arith,
      ground arith,
      ground arith,
    )

-- An active trade is refunded again and again: where its buyer or the administrator cancels it twice,
-- with a reason that passes the check of its length, both calls throw, the trades stay as they were,
-- and each of the two releases the whole amount to the buyer. It is asked that the contract is not
-- paused and not entered, that the buyer's address is well formed and the amount positive, and that
-- the table of the rate limiter, which has no key twice, holds at most six operations of the caller:
-- the two calls take the other four of ten.
pub refund_repeats :
    (now later : ℤ) (id : ℕ) (reason clean caller : String) (e : EnergyEscrow) (t : EnergyTrade)
    → find id e.trades ≡ some t
    → t.status ≡ active
    → MayRelease caller t e
    → HasRoom caller 6 e
    → is_valid_address t.buyer ≡ true
    → pos 0 <ℤ t.currency_amount
    → sanitize_string reason 500 ≡ ok clean
    → let refused = throws "TradeStructure: Invalid status transition from ACTIVE to CANCELLED" in
      let (r, f) = cancel_escrow now id reason caller e in
      let (r', f') = cancel_escrow later id reason caller f in
      (r ≡ refused)
      × (r' ≡ refused)
      × (f'.trades ≡ e.trades)
      × (f'.emitted ≡ (e.emitted ++ (refund_of now id t ∷ [])) ++ (refund_of later id t ∷ []))
refund_repeats now later id reason clean caller e t at running may room valid positive cleaned =
    let f = (cancel_escrow now id reason caller e).1 in
    let (r, room', same, one, admin) =
      refunds now id reason clean caller 6 e t room (omega arith) at running may valid positive
        cleaned in
    let at' : find id f.trades ≡ some t = ap (find id) same ∙ at in
    let may' : MayRelease caller t f = ground arith in
    let (r', _, same', two, _) =
      refunds later id reason clean caller 8 f t room' (omega arith) at' running may' valid positive
        cleaned in
    (r, r', same' ∙ same, two ∙ ap (λ l. l ++ (refund_of later id t ∷ [])) one)
