-- ===== src/Roles.antt =====
-- contracts/acl/roles/RoleManager.ts and the role lineage of libraries/ACLLib.ts.
mod Defs
pub mod Lineage
pub mod Merged
pub mod Assignments
mod Tests
unfoldable pub use Defs.*
