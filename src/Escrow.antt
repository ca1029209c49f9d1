-- ===== src/Escrow.antt =====
-- contracts/escrow: EnergyEscrow.ts with EscrowLib.ts and TradeStructure.ts.
mod Text
mod Trade
mod Checks
mod Limiter
mod State
mod Trading
mod Disputes
mod Admin
mod Methods
mod Steps
mod Status
mod Frames
mod Vouched
mod Approvals
mod Window
mod Releases
mod Refund
mod Tests
