-- ===== src/Sv2/DecodeLaws.antt =====
-- pkg/stratumv2/messages.go: the decoders of shares and other short messages.
use forgenx_engine.Prelude.{ℕ, ◌≤◌, ◌<◌, ◌^◌, ◌≡◌, refl, List, ◌++◌, ok, ltb, false, length, arith}
use forgenx_engine.Prelude.Bytes.{le32, from_le-le32, get_u32_le}
use forgenx_engine.Sv2.WireLaws.{counted, decode_b0_32-counted}
use forgenx_engine.Sv2.Decode.{
  SubmitSharesStandardFields, decode_submit_shares_standard, SubmitSharesExtendedFields,
  decode_submit_shares_extended,
}

abbrev pub IsU16 : ℕ → Type 0
IsU16 n = n < 2 ^ 16

abbrev pub IsU32 : ℕ → Type 0
IsU32 n = n < 2 ^ 32

pub record IsStandardShare (m : SubmitSharesStandardFields) : Type 0 where
  pub channel_id_fits : IsU32 m.channel_id
  pub sequence_num_fits : IsU32 m.sequence_num
  pub job_id_fits : IsU32 m.job_id
  pub nonce_fits : IsU32 m.nonce
  pub n_time_fits : IsU32 m.n_time
  pub version_fits : IsU32 m.version

pub wire_submit_shares_standard : SubmitSharesStandardFields → List ℕ
wire_submit_shares_standard m =
    le32 m.channel_id
    ++ (le32 m.sequence_num
        ++ (le32 m.job_id ++ (le32 m.nonce ++ (le32 m.n_time ++ le32 m.version))))

-- A SubmitSharesStandard whose fields fit their widths, in wire order, is decoded to its fields,
-- whatever follows it.
pub decode_submit_shares_standard-wire :
    (m : SubmitSharesStandardFields) (rest : List ℕ)
    → IsStandardShare m
    → decode_submit_shares_standard (wire_submit_shares_standard m ++ rest) ≡ ok m
unfolding decode_submit_shares_standard wire_submit_shares_standard get_u32_le
decode_submit_shares_standard-wire m rest h =
    let enough : ltb (length (wire_submit_shares_standard m ++ rest)) 24 ≡ false = ground arith in
    rw enough λ i. ok (record {
      channel_id = from_le-le32 m.channel_id h.channel_id_fits i;
      sequence_num = from_le-le32 m.sequence_num h.sequence_num_fits i;
      job_id = from_le-le32 m.job_id h.job_id_fits i;
      nonce = from_le-le32 m.nonce h.nonce_fits i;
      n_time = from_le-le32 m.n_time h.n_time_fits i;
      version = from_le-le32 m.version h.version_fits i;
    })

pub record IsExtendedShare (m : SubmitSharesExtendedFields) : Type 0 where
  pub channel_id_fits : IsU32 m.channel_id
  pub sequence_num_fits : IsU32 m.sequence_num
  pub job_id_fits : IsU32 m.job_id
  pub nonce_fits : IsU32 m.nonce
  pub n_time_fits : IsU32 m.n_time
  pub version_fits : IsU32 m.version
  pub extranonce_fits : length m.extranonce ≤ 32

share_prefix : SubmitSharesExtendedFields → List ℕ
share_prefix m =
    le32 m.channel_id
    ++ (le32 m.sequence_num
        ++ (le32 m.job_id ++ (le32 m.nonce ++ (le32 m.n_time ++ le32 m.version))))

wire_submit_shares_extended : SubmitSharesExtendedFields → List ℕ
wire_submit_shares_extended m = share_prefix m ++ counted m.extranonce

-- A SubmitSharesExtended whose fields fit their widths, in wire order, is decoded to its fields,
-- whatever follows it.
decode_submit_shares_extended-wire :
    (m : SubmitSharesExtendedFields) (rest : List ℕ)
    → IsExtendedShare m
    → decode_submit_shares_extended (wire_submit_shares_extended m ++ rest) ≡ ok m
unfolding decode_submit_shares_extended wire_submit_shares_extended share_prefix get_u32_le
decode_submit_shares_extended-wire m rest h =
    let enough : ltb (length (wire_submit_shares_extended m ++ rest)) 25 ≡ false = ground arith in
    rw (enough, decode_b0_32-counted (share_prefix m) m.extranonce rest 24 refl h.extranonce_fits)
      λ i. ok (record {
        channel_id = from_le-le32 m.channel_id h.channel_id_fits i;
        sequence_num = from_le-le32 m.sequence_num h.sequence_num_fits i;
        job_id = from_le-le32 m.job_id h.job_id_fits i;
        nonce = from_le-le32 m.nonce h.nonce_fits i;
        n_time = from_le-le32 m.n_time h.n_time_fits i;
        version = from_le-le32 m.version h.version_fits i;
        extranonce = m.extranonce;
      })
