-- ===== src/Bridge.antt =====
-- contracts/bridge: CrossChainBridge.ts, MultiChainValidator.ts, BridgeLib.ts and BridgeStructure.ts.
mod Interface
mod Hash
mod Defs
pub mod Methods
pub mod Replay
pub mod Backing
pub mod Collision
mod Watt
mod Tests
unfoldable pub use Interface.*
unfoldable pub use Hash.*
unfoldable pub use Defs.*
