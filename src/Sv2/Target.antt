-- ===== src/Sv2/Target.antt =====
-- pkg/stratumv2/pow.go: targets, their bytes, and the check of a share.
use forgenx_engine.Prelude.{
  ℕ, ◌-◌, ◌*◌, ◌^◌, List, Bool, not, Option, none, some, Result, ok, err, bit_and, leb, ◌==◌,
  if◌then◌else◌, length,
}
use forgenx_engine.Prelude.Bytes.{◌>>>◌}
use forgenx_engine.Prelude.Hex.{hex_encode}
use forgenx_engine.Prelude.Float.{Floats}
use forgenx_engine.Coinbase.Script.{reverse_bytes}
use forgenx_engine.Coinbase.Merkle.{Sha256}
use forgenx_engine.Coin.Difficulty.{max_target, set_bytes, padded_bytes}
use forgenx_engine.Sv2.Pow.{build_header, hash_block_header}

-- `diff1Target` is the target that pkg/coin calls `MaxTarget`; this is the `maxTarget` of pow.go.
abbrev pub easiest_target : ℕ
easiest_target = 2 ^ 256 - 1

unfoldable pub n_bits_to_target : ℕ → ℕ
n_bits_to_target n_bits =
    let exp = n_bits >>> 24 in
    let coeff = bit_and n_bits 0x00ffffff in
    if leb exp 3 then coeff >>> (8 * (3 - exp)) else coeff * 2 ^ (8 * (exp - 3))

abbrev reversed? : Option (List ℕ) → Option (List ℕ)
reversed? none = none
reversed? (some b) = some (reverse_bytes b)

-- `none` is the panic of `copy` into a slice that starts below zero.
unfoldable pub target_to_bytes : ℕ → Option (List ℕ)
target_to_bytes t = reversed? (padded_bytes t)

unfoldable pub bytes_to_target : List ℕ → ℕ
bytes_to_target b = if length b == 32 then set_bytes (reverse_bytes b) else 0

-- `ValidateShare` refuses a target that is not 32 bytes.
pub data ShareError : Type 0 where
  pool_target_length : ShareError

module _ (fl : Floats) where
  pub record ShareResult : Type 0 where
    pub hash : List ℕ
    pub hash_hex : List ℕ
    pub difficulty : fl.F
    pub meets_pool : Bool
    pub meets_block : Bool

  unfoldable pub target_to_difficulty : ℕ → fl.F
  target_to_difficulty target = if target == 0 then fl.of_nat 0 else fl.quo max_target target

  unfoldable pub difficulty_to_target : fl.F → ℕ
  difficulty_to_target difficulty =
      if fl.le difficulty (fl.of_nat 0) then easiest_target else fl.quo_int max_target difficulty

  module _ (sha : Sha256) where
    -- What the check finds for the hash of a header.
    unfoldable pub share_result : (hash pool_target : List ℕ) (network_n_bits : ℕ) → ShareResult
    share_result hash pool_target network_n_bits =
        let hash_int = set_bytes (reverse_bytes hash) in
        record {
          hash = hash;
          hash_hex = hex_encode (reverse_bytes hash);
          difficulty = target_to_difficulty hash_int;
          meets_pool = leb hash_int (bytes_to_target pool_target);
          meets_block = leb hash_int (n_bits_to_target network_n_bits);
        }

    unfoldable pub validate_share :
        (version : ℕ) (prev_hash merkle_root : List ℕ) (n_time n_bits nonce : ℕ)
        (pool_target : List ℕ) (network_n_bits : ℕ)
        → Result ShareError ShareResult
    validate_share version prev_hash merkle_root n_time n_bits nonce pool_target network_n_bits =
        if not (length pool_target == 32)
        then err pool_target_length
        else let hdr = build_header version prev_hash merkle_root n_time n_bits nonce in
          ok (share_result (hash_block_header sha hdr) pool_target network_n_bits)
