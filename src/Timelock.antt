-- ===== src/Timelock.antt =====
-- contracts/timelock: TimelockController.ts, libraries/TimelockLib.ts, structures/QueueStructure.ts.
mod Defs
pub mod Methods
pub mod Delay
pub mod Execution
mod Tests
pub use Defs.*
