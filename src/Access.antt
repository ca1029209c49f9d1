-- ===== src/Access.antt =====
-- contracts/acl/AccessControlList.ts: the decision on an access and the emergency actions.
mod Defs
mod Emergency
mod Rights
mod Grants
mod Held
pub mod Decisions
mod Tests
unfoldable pub use Defs.*
