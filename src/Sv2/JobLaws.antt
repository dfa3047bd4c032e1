-- ===== src/Sv2/JobLaws.antt =====
-- pkg/stratumv2/messages.go: the encoders of the two job messages.
use forgenx_engine.Prelude.{
  ℕ, ◌+◌, ◌≤◌, ◌≡◌, ap, List, [], ◌∷◌, ◌++◌, append-nil, Bool, true, false, ok, if◌then◌else◌,
  length, length-append, arith,
}
use forgenx_engine.Prelude.Bytes.{le16, le32, All}
use forgenx_engine.Sv2.WireLaws.{concat, encode_b0_64k_lem, encode_seq_u256_lem}
use forgenx_engine.Sv2.Encode.{put_u32_le}
use forgenx_engine.Sv2.EncodeJob.{encode_new_mining_job, encode_new_extended_mining_job}
use forgenx_engine.Sv2.EncodeLaws.{write_fields, write_all}

-- OPTION[u32]: a flag, and the value if it is set.
abbrev pub option_u32 : Bool → ℕ → List ℕ
option_u32 true v = 1 ∷ le32 v
option_u32 false v = 0 ∷ []

-- NewMiningJob is its fields in wire order, with the optional minimal time there or not, for a
-- 32-byte root.
pub new_mining_job_layout :
    (channel_id job_id : ℕ) (min_ntime_set : Bool) (min_ntime version : ℕ) (merkle_root : List ℕ)
    → length merkle_root ≡ 32
    → encode_new_mining_job channel_id job_id min_ntime_set min_ntime version merkle_root
      ≡ le32 channel_id
        ++ (le32 job_id ++ (option_u32 min_ntime_set min_ntime ++ (le32 version ++ merkle_root)))
unfolding encode_new_mining_job put_u32_le write_fields
new_mining_job_layout c j true t v root h = rw append-nil at (
    write_all 49 (le32 c ∷ le32 j ∷ (1 ∷ []) ∷ le32 t ∷ le32 v ∷ root ∷ [])
      (omega (arith, h, length-append root [])))
new_mining_job_layout c j false t v root h = rw append-nil at (
    write_all 45 (le32 c ∷ le32 j ∷ (0 ∷ []) ∷ le32 v ∷ root ∷ [])
      (omega (arith, h, length-append root [])))

abbrev pub bool_byte : Bool → ℕ
bool_byte b = if b then 1 else 0

abbrev tail_fields : Bool → List (List ℕ) → (prefix suffix : List ℕ) → List (List ℕ)
tail_fields rolling path prefix suffix =
    (bool_byte rolling ∷ [])
    ∷ (length path ∷ concat path)
    ∷ (le16 (length prefix) ++ prefix)
    ∷ (le16 (length suffix) ++ suffix)
    ∷ []

length-tail_fields :
    (rolling : Bool) (path : List (List ℕ)) (prefix suffix : List ℕ)
    → length (concat (tail_fields rolling path prefix suffix))
      ≡ 6 + length (concat path) + length prefix + length suffix
length-tail_fields rolling path prefix suffix = omega (
  arith,
  length-append (concat path)
      (le16 (length prefix) ++ (prefix ++ (le16 (length suffix) ++ (suffix ++ [])))),
  length-append prefix (le16 (length suffix) ++ (suffix ++ [])),
  length-append suffix [],
)

-- NewExtendedMiningJob is its fields in wire order: the identifiers, the optional minimal time,
-- the version, whether it may be rolled, the counted Merkle path, and the two halves of the
-- coinbase, each behind its 16-bit length. The path has at most 255 hashes of 32 bytes, and each
-- half at most 65535 bytes.
pub new_extended_mining_job_layout :
    (channel_id job_id : ℕ) (min_ntime_set : Bool) (min_ntime version : ℕ) (rolling : Bool)
    (merkle_path : List (List ℕ)) (prefix suffix : List ℕ)
    → length merkle_path ≤ 255
    → All (λ h. length h ≡ 32) merkle_path
    → length prefix ≤ 65535
    → length suffix ≤ 65535
    → encode_new_extended_mining_job channel_id job_id min_ntime_set min_ntime version rolling
        merkle_path prefix suffix
      ≡ ok (
          le32 channel_id
          ++ (le32 job_id
              ++ (option_u32 min_ntime_set min_ntime
                  ++ (le32 version
                      ++ (bool_byte rolling
                          ∷ length merkle_path
                          ∷ (concat merkle_path
                              ++ (le16 (length prefix)
                                  ++ (prefix ++ (le16 (length suffix) ++ suffix)))))))))
unfolding encode_new_extended_mining_job put_u32_le write_fields
new_extended_mining_job_layout c j true t v rolling path prefix suffix h k p s =
    rw (encode_seq_u256_lem path h k, encode_b0_64k_lem prefix p, encode_b0_64k_lem suffix s)
      (ap ok (
        rw append-nil at (
          write_all
            (18
              + length (length path ∷ concat path)
              + length (le16 (length prefix) ++ prefix)
              + length (le16 (length suffix) ++ suffix))
            (le32 c ∷ le32 j ∷ (1 ∷ []) ∷ le32 t ∷ le32 v ∷ tail_fields rolling path prefix suffix)
            (omega (arith, length-tail_fields rolling path prefix suffix)))))
new_extended_mining_job_layout c j false t v rolling path prefix suffix h k p s =
    rw (encode_seq_u256_lem path h k, encode_b0_64k_lem prefix p, encode_b0_64k_lem suffix s)
      (ap ok (
        rw append-nil at (
          write_all
            (14
              + length (length path ∷ concat path)
              + length (le16 (length prefix) ++ prefix)
              + length (le16 (length suffix) ++ suffix))
            (le32 c ∷ le32 j ∷ (0 ∷ []) ∷ le32 v ∷ tail_fields rolling path prefix suffix)
            (omega (arith, length-tail_fields rolling path prefix suffix)))))
