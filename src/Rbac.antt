-- ===== src/Rbac.antt =====
-- rbac/: actions, roles and permissions, users and groups, sessions, and authorisation.
pub mod Action
pub mod Role
pub mod User
pub mod Sessions
pub mod State
pub mod Users
pub mod Groups
pub mod Tests
