-- ===== src/Escrow/Releases.antt =====
-- What cancelling and delivering a trade releases.
use current_dao_contracts.Base.{
  ℕ, ℤ, String, eq_iff, Bool, Option, none, some, List, [], ◌∷◌, ◌++◌, find, put, ◌≡◌, ◌≢◌, inl,
  inr, arith, ok, Outcome-cases,
}
use current_dao_contracts.Escrow.Trade.{Amount, whole, EnergyTrade, active, completed, with_status}
use current_dao_contracts.Escrow.State.{
  EnergyEscrow, Event, tokens_released, guards, when_not_paused, check_rate_limit, non_reentrant,
  get_trade_or_throw, get_trade_milestones, add_audit_entry, emit_event, update_status,
  release_tokens,
}
use current_dao_contracts.Escrow.Trading.{
  refund_if, cancel_escrow, confirm_delivery, completed_all, completion_events,
}

guards_trades :
    (now : ℤ) (caller : String) (e : EnergyEscrow) → (guards now caller e).1.trades ≡ e.trades
unfolding guards when_not_paused check_rate_limit non_reentrant
guards_trades now caller e = ground arith

guards_emitted :
    (now : ℤ) (caller : String) (e : EnergyEscrow) → (guards now caller e).1.emitted ≡ e.emitted
unfolding guards when_not_paused check_rate_limit non_reentrant
guards_emitted now caller e = ground arith

release_trades :
    (now : ℤ) (id : ℕ) (to : String) (amount : Amount) (caller : String) (m : Option ℕ)
    (e : EnergyEscrow)
    → (release_tokens now id to amount caller m e).1.trades ≡ e.trades
unfolding release_tokens get_trade_or_throw add_audit_entry emit_event
release_trades now id to amount caller m e = ground (arith, guards_trades now caller e)

-- A release that returns is announced, and nothing else is.
release_emits :
    (now : ℤ) (id : ℕ) (to : String) (amount : Amount) (caller : String) (m : Option ℕ)
    (e : EnergyEscrow) (b : Bool)
    → (release_tokens now id to amount caller m e).0 ≡ ok b
    → (release_tokens now id to amount caller m e).1.emitted
      ≡ e.emitted ++ (record { timestamp = now; content = tokens_released id to amount m } ∷ [])
unfolding release_tokens get_trade_or_throw add_audit_entry emit_event
release_emits now id to amount caller m e b done = ground (arith, guards_emitted now caller e)

-- No call that cancels an active trade returns, whoever makes it, and the trade stays as it was.
pub active_never_cancelled :
    (now : ℤ) (id : ℕ) (reason caller : String) (e : EnergyEscrow) (t : EnergyTrade) (b : Bool)
    → find id e.trades ≡ some t
    → t.status ≡ active
    → ((cancel_escrow now id reason caller e).0 ≢ ok b)
      × ((cancel_escrow now id reason caller e).1.trades ≡ e.trades)
unfolding cancel_escrow refund_if update_status with_status get_trade_or_throw
active_never_cancelled now id reason caller e t b at running =
    let g = (guards now caller e).1 in
    let r = release_trades now id t.buyer (whole t.currency_amount) caller none g in
    (
      (λ done. ground (arith, guards_trades now caller e, r)),
      ground (arith, guards_trades now caller e, r),
    )

-- A confirmation of the delivery that returns releases the whole amount of the trade to the seller,
-- whatever was released for its milestones before, and completes the trade.
pub delivery_releases_all :
    (now : ℤ) (id : ℕ) (caller : String) (e : EnergyEscrow) (t : EnergyTrade) (b : Bool)
    → find id e.trades ≡ some t
    → (confirm_delivery now id caller e).0 ≡ ok b
    → let f = (confirm_delivery now id caller e).1 in
      (f.trades ≡ put id (record t { status = completed }) e.trades)
      × (caller ≡ t.buyer)
      × (t.status ≡ active)
      × ((events : List Event) × (f.emitted
            ≡ (e.emitted ++ events)
              ++ (record {
                timestamp = now;
                content = tokens_released id t.seller (whole t.currency_amount) none;
              }
                  ∷ [])))
unfolding confirm_delivery update_status with_status get_trade_or_throw add_audit_entry
delivery_releases_all now id caller e t b at done =
    let g = (guards now caller e).1 in
    let s : EnergyEscrow = record g {
      milestones = completed_all now id g.milestones;
      emitted = g.emitted ++ completion_events now id caller (get_trade_milestones id g);
    } in
    let same = release_trades now id t.seller (whole t.currency_amount) caller none s in
    let still = guards_trades now caller e in
    let before = guards_emitted now caller e in
    let own = eq_iff caller t.buyer in
    elim (Outcome-cases
      (release_tokens now id t.seller (whole t.currency_amount) caller none s).0) [
        | inl (r, returned) ↦
            let announced =
              release_emits now id t.seller (whole t.currency_amount) caller none s r returned in
            (
              ground arith,
              ground arith,
              ground arith,
              (completion_events now id caller (get_trade_milestones id g), ground arith),
            )
        | inr (why, threw) ↦ absurd (ground arith)
      ]
