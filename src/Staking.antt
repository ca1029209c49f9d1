-- ===== src/Staking.antt =====
-- contracts/staking/governance/PoolGovernance.ts.
mod Defs
pub mod Votes
mod Tests
unfoldable pub use Defs.*
