-- ===== src/Coin/Types.antt =====
-- pkg/coin/coin.go: the parameters of a coin. A text is the list of its bytes.
use forgenx_engine.Prelude.{ℕ, List, [], ◌∷◌, Bool, if◌then◌else◌, Result, ok, err}
use forgenx_engine.Coin.Text.{same_text}

pub record CoinParams : Type 0 where
  pub p2pkh_version_mainnet : ℕ
  pub p2pkh_version_testnet : ℕ
  pub p2sh_version_mainnet : ℕ
  pub p2sh_version_testnet : ℕ
  pub bech32_hrp_mainnet : List ℕ
  pub bech32_hrp_testnet : List ℕ
  pub cash_addr_prefix : List ℕ
  pub default_rpc_port : ℕ
  pub seg_wit : Bool

-- What a network name selects of them.
pub record AddressParams : Type 0 where
  pub hrp : List ℕ
  pub p2pkh_version : ℕ
  pub p2sh_version : ℕ

unfoldable pub is_testnet : List ℕ → Bool
is_testnet network = same_text network (b't' ∷ b'e' ∷ b's' ∷ b't' ∷ b'n' ∷ b'e' ∷ b't' ∷ [])

unfoldable pub address_params : CoinParams → List ℕ → AddressParams
address_params params network =
    if is_testnet network
    then record {
      hrp = params.bech32_hrp_testnet;
      p2pkh_version = params.p2pkh_version_testnet;
      p2sh_version = params.p2sh_version_testnet;
    }
    else record {
      hrp = params.bech32_hrp_mainnet;
      p2pkh_version = params.p2pkh_version_mainnet;
      p2sh_version = params.p2sh_version_mainnet;
    }

-- `if err != nil { return errors.New(...) }`: the error of the caller.
abbrev pub or_error {ℓ κ} : {E : Type κ} {A : Type ℓ} → Result E A → E → Result E A
or_error (ok a) e = ok a
or_error (err d) e = err e
