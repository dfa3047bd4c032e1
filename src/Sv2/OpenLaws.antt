-- ===== src/Sv2/OpenLaws.antt =====
-- pkg/stratumv2/messages.go: the requests that open a channel.
use forgenx_engine.Prelude.{
  ℕ, ◌+◌, ◌≡◌, refl, List, [], ◌++◌, append_assoc, ok, ltb, false, length, length-append, arith,
}
use forgenx_engine.Prelude.Bytes.{
  le16, le32, get_u16_le, get_u32_le, get_u16_le-field, get_u32_le-field,
}
use forgenx_engine.Sv2.Wire.{decode_str0_255, decode_u256}
use forgenx_engine.Sv2.WireLaws.{counted, decode_str0_255-counted, decode_u256-field}
use forgenx_engine.Sv2.Decode.{
  OpenStandardMiningChannelFields, decode_open_standard_mining_channel,
  OpenExtendedMiningChannelFields, decode_open_extended_mining_channel,
}
use forgenx_engine.Sv2.DecodeLaws.{IsU16, IsU32}

-- The fields that both requests begin with, and what comes behind them.
open_fields : (request_id : ℕ) (identity : List ℕ) (hashrate : ℕ) (target tail : List ℕ) → List ℕ
open_fields request_id identity hashrate target tail =
    le32 request_id ++ (counted identity ++ (le32 hashrate ++ (target ++ tail)))

-- What the decoders find in such a payload: nothing is short, and every field is read back.
record Reads (b : List ℕ) (request_id : ℕ) (identity : List ℕ) (hashrate : ℕ) (target : List ℕ)
    : Type 0 where
  enough : ltb (length b) 9 ≡ false
  to_hashrate : ltb (length b) (4 + (length identity + 1) + 4) ≡ false
  request_id_at : get_u32_le b 0 ≡ request_id
  identity_at : decode_str0_255 b 4 ≡ ok (identity, length identity + 1)
  hashrate_at : get_u32_le b (4 + (length identity + 1)) ≡ hashrate
  target_at : decode_u256 b (4 + (length identity + 1) + 4) ≡ ok (target, 32)

length-open_fields :
    (request_id : ℕ) (identity : List ℕ) (hashrate : ℕ) (target tail : List ℕ)
    → length target ≡ 32
    → length (open_fields request_id identity hashrate target tail)
      ≡ 41 + length identity + length tail
unfolding open_fields
length-open_fields request_id identity hashrate target tail size = omega (
  arith,
  size,
  length-append identity (le32 hashrate ++ (target ++ tail)),
  length-append target tail,
)

reads :
    (request_id : ℕ) (identity : List ℕ) (hashrate : ℕ) (target tail : List ℕ)
    → IsU32 request_id
    → IsU32 hashrate
    → length target ≡ 32
    → Reads
        (open_fields request_id identity hashrate target tail)
        request_id
        identity
        hashrate
        target
reads r i h t tail r_fits h_fits size = record {
  enough = ground (arith, length-open_fields r i h t tail size);
  to_hashrate = ground (arith, length-open_fields r i h t tail size);
  request_id_at = unfold open_fields in get_u32_le-field [] r _ 0 refl r_fits;
  identity_at =
      unfold open_fields in decode_str0_255-counted (le32 r) i (le32 h ++ (t ++ tail)) 4 refl;
  hashrate_at =
      unfold open_fields in
      simp append_assoc at (
        get_u32_le-field (le32 r ++ counted i) h (t ++ tail) (4 + (length i + 1)) (omega arith)
          h_fits);
  target_at =
      unfold open_fields in
      simp append_assoc at (
        decode_u256-field (le32 r ++ (counted i ++ le32 h)) t tail (4 + (length i + 1) + 4)
          (omega (arith, length-append i (le32 h))) size);
}

read_size :
    (r : ℕ) (i : List ℕ) (h : ℕ) (t : List ℕ) (v : ℕ) (rest : List ℕ)
    → length t ≡ 32
    → IsU16 v
    → get_u16_le (open_fields r i h t (le16 v ++ rest)) (4 + (length i + 1) + 4 + 32) ≡ v
unfolding open_fields
read_size r i h t v rest size fits = simp append_assoc at (
    get_u16_le-field (le32 r ++ (counted i ++ (le32 h ++ t))) v rest (4 + (length i + 1) + 4 + 32)
      (omega (arith, size, length-append i (le32 h ++ t))) fits)

pub record IsStandardOpen (m : OpenStandardMiningChannelFields) : Type 0 where
  pub request_id_fits : IsU32 m.request_id
  pub hashrate_fits : IsU32 m.nominal_hashrate
  pub target_size : length m.max_target_bytes ≡ 32

pub wire_open_standard : OpenStandardMiningChannelFields → List ℕ → List ℕ
wire_open_standard m rest =
    open_fields m.request_id m.user_identity m.nominal_hashrate m.max_target_bytes rest

-- An OpenStandardMiningChannel whose fields fit their widths, with a target of 32 bytes, in wire
-- order, is decoded to its fields, whatever follows it.
pub decode_open_standard-wire :
    (m : OpenStandardMiningChannelFields) (rest : List ℕ)
    → IsStandardOpen m
    → decode_open_standard_mining_channel (wire_open_standard m rest) ≡ ok m
unfolding wire_open_standard decode_open_standard_mining_channel
decode_open_standard-wire m rest h =
    let r =
      reads m.request_id m.user_identity m.nominal_hashrate m.max_target_bytes rest
        h.request_id_fits h.hashrate_fits h.target_size in
    rw (r.enough, r.identity_at, r.to_hashrate, r.target_at, r.request_id_at, r.hashrate_at)

pub record IsExtendedOpen (m : OpenExtendedMiningChannelFields) : Type 0 where
  pub request_id_fits : IsU32 m.request_id
  pub hashrate_fits : IsU32 m.nominal_hashrate
  pub target_size : length m.max_target_bytes ≡ 32
  pub size_fits : IsU16 m.min_extranonce_size

wire_open_extended : OpenExtendedMiningChannelFields → List ℕ → List ℕ
wire_open_extended m rest =
    open_fields m.request_id m.user_identity m.nominal_hashrate m.max_target_bytes
      (le16 m.min_extranonce_size ++ rest)

-- An OpenExtendedMiningChannel whose fields fit their widths, with a target of 32 bytes, in wire
-- order, is decoded to its fields, whatever follows it.
decode_open_extended-wire :
    (m : OpenExtendedMiningChannelFields) (rest : List ℕ)
    → IsExtendedOpen m
    → decode_open_extended_mining_channel (wire_open_extended m rest) ≡ ok m
unfolding wire_open_extended decode_open_extended_mining_channel
decode_open_extended-wire m rest h =
    let tail = le16 m.min_extranonce_size ++ rest in
    let r =
      reads m.request_id m.user_identity m.nominal_hashrate m.max_target_bytes tail
        h.request_id_fits h.hashrate_fits h.target_size in
    let to_size : ltb (length (wire_open_extended m rest))
          (4 + (length m.user_identity + 1) + 4 + 32 + 2)
        ≡ false =
      ground (
        arith,
        length-open_fields m.request_id m.user_identity m.nominal_hashrate m.max_target_bytes tail
            h.target_size,
      ) in
    rw (
      r.enough,
      r.identity_at,
      r.to_hashrate,
      r.target_at,
      to_size,
      r.request_id_at,
      r.hashrate_at,
      read_size m.request_id m.user_identity m.nominal_hashrate m.max_target_bytes
          m.min_extranonce_size rest h.target_size h.size_fits,
    )
