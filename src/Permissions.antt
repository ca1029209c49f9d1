-- ===== src/Permissions.antt =====
-- contracts/acl/permissions/PermissionManager.ts: the permissions and the grants to single subjects.
mod Defs
pub mod Grants
pub mod Matching
mod Tests
unfoldable pub use Defs.*
