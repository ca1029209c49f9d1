-- ===== src/Escrow/Frames.antt =====
-- The calls on disputes and requests leave the trades alone.
use current_dao_contracts.Base.{ℕ, ℤ, String, List, Dict, arith, ◌≡◌, refl}
use current_dao_contracts.Escrow.Trade.{DisputeEvidence, DisputeResolution}
use current_dao_contracts.Escrow.State.{EnergyEscrow, get_trade_or_throw, Detail, add_audit_entry}
use current_dao_contracts.Escrow.Disputes.{
  open_dispute, close_dispute, open_request, record_approval, record_execution,
}

-- The trades and the next id are the same.
pub record SameTrades (e f : EnergyEscrow) : Type 0 where
  pub trades : f.trades ≡ e.trades
  pub next : f.next_trade_id ≡ e.next_trade_id

pub audit-SameTrades :
    (now : ℤ) (action actor : String) (details : Dict Detail) (e : EnergyEscrow)
    → SameTrades e (add_audit_entry now action actor details e).1
unfolding add_audit_entry
audit-SameTrades now action actor details e = record { trades = refl; next = refl }

pub dispute-SameTrades :
    (now : ℤ) (id : ℕ) (caller respondent reason : String) (evidence : List DisputeEvidence)
    (e : EnergyEscrow)
    → SameTrades e (open_dispute now id caller respondent reason evidence e).1
unfolding open_dispute
dispute-SameTrades now id caller respondent reason evidence e = record {
  trades = ground arith;
  next = ground arith;
}

pub close-SameTrades :
    (now : ℤ) (id : ℕ) (r : DisputeResolution) (caller : String) (e : EnergyEscrow)
    → SameTrades e (close_dispute now id r caller e).1
unfolding close_dispute get_trade_or_throw
close-SameTrades now id r caller e = record { trades = ground arith; next = ground arith }

pub request-SameTrades :
    (now : ℤ) (id : ℕ) (caller reason : String) (required : ℤ) (e : EnergyEscrow)
    → SameTrades e (open_request now id caller reason required e).1
unfolding open_request
request-SameTrades now id caller reason required e = record {
  trades = ground arith;
  next = ground arith;
}

pub approval-SameTrades :
    (id : ℕ) (caller : String) (e : EnergyEscrow) → SameTrades e (record_approval id caller e).1
unfolding record_approval get_trade_or_throw
approval-SameTrades id caller e = record { trades = ground arith; next = ground arith }

pub execution-SameTrades :
    (now : ℤ) (id : ℕ) (to caller : String) (e : EnergyEscrow)
    → SameTrades e (record_execution now id to caller e).1
unfolding record_execution get_trade_or_throw
execution-SameTrades now id to caller e = record { trades = ground arith; next = ground arith }
