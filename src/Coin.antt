-- ===== src/Coin.antt =====
-- pkg/coin: addresses of every format, and the coins.
pub mod Text
pub mod Errors
pub mod Bech32
pub mod Segwit
pub mod Base58
pub mod CashAddr
pub mod Template
pub mod Types
pub mod Outputs
pub mod Block
pub mod Standard
pub mod Bitcoin
pub mod DigiByte
pub mod BitcoinIi
pub mod BitcoinCash
pub mod ECash
pub mod Difficulty
pub mod Interface
pub mod Generic
pub mod OutputLaws
pub mod Fractal
pub mod BlockLaws
pub mod AddressLaws
mod Tests
pub mod ECashLaws
pub mod SegwitLaws
pub mod FractalLaws
