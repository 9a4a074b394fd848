-- ===== src/Security.antt =====
-- internal/security: roles and permissions, and who may reach a workspace, a channel or a call.
pub mod Rbac
pub mod Guests
pub mod Collab
pub mod Access
mod Examples
mod Runs
