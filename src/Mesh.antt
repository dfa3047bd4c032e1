-- ===== src/Mesh.antt =====
-- pkg/mesh: the System Mesh that moves miners between nodes.
pub mod Activity
pub mod ActivityLaws
pub mod Balancer
pub mod Moves
pub mod MoveLaws
pub mod Placement
pub mod PlacementLaws
mod Tests
