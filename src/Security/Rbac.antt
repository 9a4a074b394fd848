-- ===== src/Security/Rbac.antt =====
-- internal/security/rbac/rbac.go: the permissions, the default roles and custom role definitions.
pub mod Parse
pub mod Normal
pub mod Roles
pub mod Merging
pub mod Checker
pub mod Granted
