-- ===== src/MultiSig.antt =====
-- contracts/multisig: DAOMultiSig.ts, libraries/MultiSigLib.ts, structures/MultiSigStructure.ts.
mod Defs
pub mod Counts
pub mod Quorum
mod Tests
pub use Defs.*
