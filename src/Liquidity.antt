-- ===== src/Liquidity.antt =====
-- contracts/liquidity: MultiChainLiquidityPool.ts, CrossChainBridge.ts and RebalancingEngine.ts.
mod Defs
mod Totals
pub mod Bridging
pub mod Planning
mod Tests
unfoldable pub use Defs.*
