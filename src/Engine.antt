-- ===== src/Engine.antt =====
-- pkg/engine: jobs, shares and what is kept about them.
pub mod Branches
pub mod BranchLaws
pub mod Words
pub mod WordLaws
pub mod Jobs
pub mod Shares
pub mod Rejections
pub mod RejectionLaws
mod Tests
mod JobTests
mod ShareTests
