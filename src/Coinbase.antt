-- ===== src/Coinbase.antt =====
-- pkg/coinbase: output scripts, Bitcoin's integer encodings, and the coinbase transaction.
pub mod Script
pub mod VarInt
pub mod Height
pub mod Builder
pub mod Parse
pub mod Layout
pub mod Witness
pub mod Merkle
mod Tests
