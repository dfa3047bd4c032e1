-- ===== src/Coin/Interface.antt =====
-- The interface of pkg/coin/coin.go: what pkg/engine calls of a coin, and Bitcoin as one.
use forgenx_engine.Prelude.{ℕ, List, Result}
use forgenx_engine.Prelude.Int.{ℤ}
use forgenx_engine.Coinbase.Builder.{CoinbaseOutput}
use forgenx_engine.Coin.Template.{BlockTemplate}
use forgenx_engine.Coin.Errors.{CoinError}

pub record Coin : Type 0 where
  pub symbol : List ℕ
  pub build_coinbase :
      BlockTemplate
      → (address network coinbase_text : List ℕ) → (extra_nonce1_size extra_nonce2_size : ℕ)
      → List CoinbaseOutput
      → Result CoinError (List ℕ × List ℕ)
  pub build_block : (header coinbase_tx : List ℕ) → BlockTemplate → Result CoinError (List ℕ)
  pub pool_reward : BlockTemplate → ℤ
