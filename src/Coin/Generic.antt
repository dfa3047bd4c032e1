-- ===== src/Coin/Generic.antt =====
-- pkg/coin/generic.go, and the coin definitions of pkg/coin/coin.go that configure it.
use forgenx_engine.Prelude.{
  ℕ, List, [], ◌∷◌, Bool, true, false, ◌&&◌, ◌||◌, not, leb, ltb, if◌then◌else◌, Option, none, some,
  Result, ok, err, ◌>>◌, fail_if, length,
}
use forgenx_engine.Prelude.Int.{ℤ, pos, ltb_ℤ}
use forgenx_engine.Prelude.Bytes.{u8}
use forgenx_engine.Coinbase.Merkle.{Sha256}
use forgenx_engine.Coinbase.Builder.{CoinbaseOutput, uint64_of}
use forgenx_engine.Coin.Errors.{CoinError}
use forgenx_engine.Coin.Template.{BlockTemplate}
use forgenx_engine.Coin.Types.{CoinParams, address_params}
use forgenx_engine.Coin.Standard.{
  validate_segwit, validate_base58, segwit_to_script, base58_to_script,
}
use forgenx_engine.Coin.Outputs.{build_segwit_coinbase}
use forgenx_engine.Coin.Block.{build_segwit_block}

pub record NetworkVersions : Type 0 where
  pub mainnet : ℤ
  pub testnet : ℤ

pub record NetworkHrp : Type 0 where
  pub mainnet_hrp : List ℕ
  pub testnet_hrp : List ℕ

pub record Base58Config : Type 0 where
  pub p2pkh : NetworkVersions
  pub p2sh : Option NetworkVersions

-- A nil pointer is `none`. Bech32Config is the HRPs it holds.
pub record AddressConfig : Type 0 where
  pub base58 : Option Base58Config
  pub bech32 : Option NetworkHrp

pub record CoinDefinition : Type 0 where
  pub name : List ℕ
  pub symbol : List ℕ
  pub segwit : Bool
  pub address : AddressConfig

pub data DefinitionError : Type 0 where
  bad_coin_type : DefinitionError
  name_required : DefinitionError
  bad_symbol : DefinitionError
  base58_required : DefinitionError
  bad_version_byte : DefinitionError
  bech32_required : DefinitionError
  hrp_required : DefinitionError

is_lower : ℕ → Bool
is_lower c = leb b'a' c && leb c b'z'

is_upper : ℕ → Bool
is_upper c = leb b'A' c && leb c b'Z'

is_digit : ℕ → Bool
is_digit c = leb b'0' c && leb c b'9'

-- The expression `^[a-z][a-z0-9]*$`.
unfoldable pub all_chars : (ℕ → Bool) → List ℕ → Bool
all_chars test [] = true
all_chars test (c ∷ text) = test c && all_chars test text

unfoldable pub matches_coin_type : List ℕ → Bool
unfolding is_lower is_digit
matches_coin_type [] = false
matches_coin_type (c ∷ text) = is_lower c && all_chars (λ d. is_lower d || is_digit d) text

-- The expression `^[A-Z0-9]+$`.
unfoldable pub matches_symbol : List ℕ → Bool
unfolding is_upper is_digit
matches_symbol [] = false
matches_symbol (c ∷ text) = all_chars (λ d. is_upper d || is_digit d) (c ∷ text)

unfoldable pub is_empty : List ℕ → Bool
is_empty [] = true
is_empty (c ∷ text) = false

unfoldable pub validate_version_byte : ℤ → Result DefinitionError (Unit {0})
validate_version_byte v = fail_if (ltb_ℤ v (pos 0) || ltb_ℤ (pos 255) v) bad_version_byte

unfoldable pub validate_versions : NetworkVersions → Result DefinitionError (Unit {0})
validate_versions versions = do
  validate_version_byte versions.mainnet
  validate_version_byte versions.testnet

unfoldable pub validate_base58_config : Base58Config → Result DefinitionError (Unit {0})
validate_base58_config config = do
  validate_versions config.p2pkh
  elim config.p2sh [ none ↦ ok tt | some versions ↦ validate_versions versions ]

unfoldable pub validate_hrp : NetworkHrp → Result DefinitionError (Unit {0})
validate_hrp hrp = do
  fail_if (is_empty hrp.mainnet_hrp) hrp_required
  fail_if (is_empty hrp.testnet_hrp) hrp_required

unfoldable pub validate_coin_definition :
    List ℕ → CoinDefinition → Result DefinitionError (Unit {0})
validate_coin_definition coin_type def = do
  fail_if (not (matches_coin_type coin_type)) bad_coin_type
  fail_if (is_empty def.name) name_required
  fail_if
      (ltb (length def.symbol) 2 || (ltb 10 (length def.symbol) || not (matches_symbol def.symbol)))
      bad_symbol
  elim def.address.base58 [
    | none ↦ err base58_required
    | some config ↦ validate_base58_config config
  ]
  if def.segwit
      then elim def.address.bech32 [ none ↦ err bech32_required | some hrp ↦ validate_hrp hrp ]
      else ok tt

-- `byte(v)` of an int.
abbrev pub byte_of : ℤ → ℕ
byte_of v = u8 (uint64_of v)

-- Versions that the definition does not give stay zero.
abbrev pub version_or_zero : Option NetworkVersions → (NetworkVersions → ℤ) → ℕ
version_or_zero none field = 0
version_or_zero (some versions) field = byte_of (field versions)

abbrev pub hrp_or_empty : Bool → Option NetworkHrp → (NetworkHrp → List ℕ) → List ℕ
hrp_or_empty true (some hrp) field = field hrp
hrp_or_empty true none field = []
hrp_or_empty false config field = []

-- The definition has a base58 part: ValidateCoinDefinition requires it, and the source
-- dereferences the pointer.
unfoldable pub generic_params : CoinDefinition → Base58Config → CoinParams
generic_params def base58 = record {
  p2pkh_version_mainnet = byte_of base58.p2pkh.mainnet;
  p2pkh_version_testnet = byte_of base58.p2pkh.testnet;
  p2sh_version_mainnet = version_or_zero base58.p2sh (λ versions. versions.mainnet);
  p2sh_version_testnet = version_or_zero base58.p2sh (λ versions. versions.testnet);
  bech32_hrp_mainnet = hrp_or_empty def.segwit def.address.bech32 (λ hrp. hrp.mainnet_hrp);
  bech32_hrp_testnet = hrp_or_empty def.segwit def.address.bech32 (λ hrp. hrp.testnet_hrp);
  cash_addr_prefix = [];
  default_rpc_port = 0;
  seg_wit = def.segwit;
}

unfoldable pub template_rules : CoinDefinition → List (List ℕ)
template_rules def = if def.segwit then (b's' ∷ b'e' ∷ b'g' ∷ b'w' ∷ b'i' ∷ b't' ∷ []) ∷ [] else []

module _ (sha : Sha256) (def : CoinDefinition) (base58 : Base58Config) where
  unfoldable pub validate_address : (address network : List ℕ) → Result CoinError (Unit {0})
  validate_address address network =
      let versions = address_params (generic_params def base58) network in
      if def.segwit && not (is_empty versions.hrp)
      then validate_segwit sha versions address
      else validate_base58 sha versions address

  unfoldable pub address_to_script : (address network : List ℕ) → Result CoinError (List ℕ)
  address_to_script address network =
      let versions = address_params (generic_params def base58) network in
      if def.segwit && not (is_empty versions.hrp)
      then segwit_to_script sha versions address
      else base58_to_script sha versions address

  unfoldable pub build_coinbase :
      BlockTemplate
      → (address network coinbase_text : List ℕ) → (extra_nonce1_size extra_nonce2_size : ℕ)
      → List CoinbaseOutput
      → Result CoinError (List ℕ × List ℕ)
  build_coinbase template address network coinbase_text extra_nonce1_size extra_nonce2_size
        extra_outputs =
      build_segwit_coinbase template coinbase_text extra_nonce1_size extra_nonce2_size extra_outputs
        (address_to_script address network) def.segwit

unfoldable pub build_block :
    (header coinbase_tx : List ℕ) → BlockTemplate → Result CoinError (List ℕ)
build_block header coinbase_tx template = build_segwit_block header coinbase_tx template

unfoldable pub pool_reward : BlockTemplate → ℤ
pool_reward template = template.coinbase_value
