-- ===== src/Sv2/Decode.antt =====
-- The messages of pkg/stratumv2/messages.go that a client sends: their fields, and the decoders.
-- A nominal hashrate stays the bit pattern of its float32.
use forgenx_engine.Prelude.{ℕ, ◌+◌, List, Result, ok, ◌>>=◌, ◌>>◌, fail_if, ltb, length}
use forgenx_engine.Prelude.Bytes.{byte_at, get_u16_le, get_u32_le}
use forgenx_engine.Sv2.Wire.{WireError, payload_short, decode_str0_255, decode_b0_32, decode_u256}

pub record SetupConnectionFields : Type 0 where
  pub protocol : ℕ
  pub min_version : ℕ
  pub max_version : ℕ
  pub flags : ℕ
  pub endpoint_host : List ℕ
  pub endpoint_port : ℕ
  pub vendor : List ℕ
  pub hardware_version : List ℕ
  pub firmware : List ℕ
  pub device_id : List ℕ

-- `if n > len(payload) { return errShort }`.
abbrev pub need : ℕ → List ℕ → Result WireError (Unit {0})
need n payload = fail_if (ltb (length payload) n) payload_short

unfoldable pub decode_setup_connection : List ℕ → Result WireError SetupConnectionFields
decode_setup_connection payload = do
  need 9 payload
  let offset : ℕ = 9
  (endpoint_host, consumed) ← decode_str0_255 payload offset
  let offset₁ = offset + consumed
  need (offset₁ + 2) payload
  let offset₂ = offset₁ + 2
  (vendor, consumed₂) ← decode_str0_255 payload offset₂
  let offset₃ = offset₂ + consumed₂
  (hardware_version, consumed₃) ← decode_str0_255 payload offset₃
  let offset₄ = offset₃ + consumed₃
  (firmware, consumed₄) ← decode_str0_255 payload offset₄
  let offset₅ = offset₄ + consumed₄
  (device_id, consumed₅) ← decode_str0_255 payload offset₅
  ok (record {
    protocol = byte_at payload 0;
    min_version = get_u16_le payload 1;
    max_version = get_u16_le payload 3;
    flags = get_u32_le payload 5;
    endpoint_host = endpoint_host;
    endpoint_port = get_u16_le payload offset₁;
    vendor = vendor;
    hardware_version = hardware_version;
    firmware = firmware;
    device_id = device_id;
  })

pub record OpenStandardMiningChannelFields : Type 0 where
  pub request_id : ℕ
  pub user_identity : List ℕ
  pub nominal_hashrate : ℕ
  pub max_target_bytes : List ℕ

unfoldable pub decode_open_standard_mining_channel :
    List ℕ → Result WireError OpenStandardMiningChannelFields
decode_open_standard_mining_channel payload = do
  need 9 payload
  (user_identity, consumed) ← decode_str0_255 payload 4
  let offset = 4 + consumed
  need (offset + 4) payload
  let offset₁ = offset + 4
  (max_target_bytes, consumed₁) ← decode_u256 payload offset₁
  ok (record {
    request_id = get_u32_le payload 0;
    user_identity = user_identity;
    nominal_hashrate = get_u32_le payload offset;
    max_target_bytes = max_target_bytes;
  })

pub record OpenExtendedMiningChannelFields : Type 0 where
  pub request_id : ℕ
  pub user_identity : List ℕ
  pub nominal_hashrate : ℕ
  pub max_target_bytes : List ℕ
  pub min_extranonce_size : ℕ

unfoldable pub decode_open_extended_mining_channel :
    List ℕ → Result WireError OpenExtendedMiningChannelFields
decode_open_extended_mining_channel payload = do
  need 9 payload
  (user_identity, consumed) ← decode_str0_255 payload 4
  let offset = 4 + consumed
  need (offset + 4) payload
  let offset₁ = offset + 4
  (max_target_bytes, consumed₁) ← decode_u256 payload offset₁
  let offset₂ = offset₁ + consumed₁
  need (offset₂ + 2) payload
  ok (record {
    request_id = get_u32_le payload 0;
    user_identity = user_identity;
    nominal_hashrate = get_u32_le payload offset;
    max_target_bytes = max_target_bytes;
    min_extranonce_size = get_u16_le payload offset₂;
  })

pub record SubmitSharesStandardFields : Type 0 where
  pub channel_id : ℕ
  pub sequence_num : ℕ
  pub job_id : ℕ
  pub nonce : ℕ
  pub n_time : ℕ
  pub version : ℕ

unfoldable pub decode_submit_shares_standard : List ℕ → Result WireError SubmitSharesStandardFields
decode_submit_shares_standard payload = do
  need 24 payload
  ok (record {
    channel_id = get_u32_le payload 0;
    sequence_num = get_u32_le payload 4;
    job_id = get_u32_le payload 8;
    nonce = get_u32_le payload 12;
    n_time = get_u32_le payload 16;
    version = get_u32_le payload 20;
  })

pub record SubmitSharesExtendedFields : Type 0 where
  pub channel_id : ℕ
  pub sequence_num : ℕ
  pub job_id : ℕ
  pub nonce : ℕ
  pub n_time : ℕ
  pub version : ℕ
  pub extranonce : List ℕ

unfoldable pub decode_submit_shares_extended : List ℕ → Result WireError SubmitSharesExtendedFields
decode_submit_shares_extended payload = do
  let fixed_need : ℕ = 24
  need (fixed_need + 1) payload
  (extranonce, consumed) ← decode_b0_32 payload fixed_need
  ok (record {
    channel_id = get_u32_le payload 0;
    sequence_num = get_u32_le payload 4;
    job_id = get_u32_le payload 8;
    nonce = get_u32_le payload 12;
    n_time = get_u32_le payload 16;
    version = get_u32_le payload 20;
    extranonce = extranonce;
  })
