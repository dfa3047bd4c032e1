-- ===== src/Stratum.antt =====
-- pkg/stratum: the Stratum V1 server.
pub mod VarDiff
pub mod VarDiffLaws
mod Tests
