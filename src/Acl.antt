-- ===== src/Acl.antt =====
-- contracts/acl: the proposals of governance/ACLGovernance.ts.
mod Ids
mod Defs
pub mod Methods
pub mod Ballots
pub mod Votes
pub mod Execution
mod Tests
unfoldable pub use Ids.*
unfoldable pub use Defs.*
