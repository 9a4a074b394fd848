-- ===== src/Collaboration.antt =====
-- Connections between workspaces: internal/domain/entity/workspace_collaboration.go, their table in
-- internal/repository/postgres/workspace_collaboration.go, and internal/service/collaboration.
pub mod Policy
pub mod Store
pub mod Service
pub mod Sharing
pub mod Lifecycle
pub mod Agreement
mod Examples
