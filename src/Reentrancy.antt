-- ===== src/Reentrancy.antt =====
-- contracts/security: ReentrancyGuard.ts with detection/ReentrancyDetector.ts,
-- protection/StateProtection.ts, monitoring/CallStackMonitor.ts and libraries/ReentrancyLib.ts.
mod Defs
pub mod Nesting
pub mod Detection
mod Tests
unfoldable pub use Defs.*
