-- ===== src/Placement.antt =====
-- internal/service/mediaops/service.go: the media node that a call is placed on.
pub mod Nodes
pub mod Picking
pub mod Selection
mod Examples
