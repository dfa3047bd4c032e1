-- ===== src/Sv2.antt =====
-- pkg/stratumv2: the Stratum V2 server.
pub mod Pow
pub mod Target
pub mod ByteLaws
pub mod TargetLaws
pub mod ShareLaws
pub mod Channel
pub mod Accounting
pub mod ChannelLaws
pub mod AccountingLaws
pub mod DeliveryLaws
mod ChannelTests
pub mod Wire
pub mod WireLaws
pub mod Decode
pub mod Encode
pub mod EncodeJob
pub mod EncodeLaws
pub mod JobLaws
pub mod DecodeLaws
pub mod OpenLaws
pub mod SetupLaws
mod Tests
pub mod PowLaws
