-- ===== src/Governance.antt =====
-- contracts/dao: Governance.ts, libraries/VotingLib.ts, algorithms/QuadraticVoting.ts and
-- structures/ProposalStructure.ts.
mod Defs
pub mod Power
pub mod Methods
pub mod Votes
pub mod Lifecycle
mod Tests
pub use Defs.*
