-- ===== src/Sv2/EncodeLaws.antt =====
-- pkg/stratumv2/messages.go: the encoders of the messages that the server sends.
use forgenx_engine.Prelude.{
  ℕ, ◌+◌, ◌≤◌, ◌≡◌, refl, ap, ◌∙◌, List, [], ◌∷◌, ◌++◌, append-nil, append_assoc, ok, length,
  length-append, arith,
}
use forgenx_engine.Prelude.Bytes.{zeros, copy_at, copy_at-field, le16, le32, le64}
use forgenx_engine.Sv2.WireLaws.{
  counted, concat, encode_str0_255_lem, encode_b0_32_lem, encode_u256_lem,
}
use forgenx_engine.Sv2.Encode.{
  put_u16_le, put_u32_le, put_u64_le, encode_setup_connection_success,
  encode_setup_connection_error, encode_open_standard_mining_channel_success,
  encode_open_standard_mining_channel_error, encode_open_extended_mining_channel_success,
  encode_open_extended_mining_channel_error, encode_set_target, encode_set_new_prev_hash,
  encode_submit_shares_success, encode_submit_shares_error,
}

-- Fields written one behind the other fill a buffer of their total length.
unfoldable pub write_fields : List ℕ → ℕ → List (List ℕ) → List ℕ
write_fields b off [] = b
write_fields b off (f ∷ fields) = write_fields (copy_at b off f) (off + length f) fields

write_fields-append :
    (pre : List ℕ) (off n : ℕ) (fields : List (List ℕ))
    → off ≡ length pre
    → n ≡ length (concat fields)
    → write_fields (pre ++ zeros n) off fields ≡ pre ++ concat fields
unfolding write_fields
write_fields-append pre off n [] p q = let none : n ≡ 0 = q in rw none
write_fields-append pre off n (f ∷ fields) p q =
    rw
      (copy_at-field pre f off n (length (concat fields)) p
        (omega (arith, length-append f (concat fields))))
      (write_fields-append (pre ++ f) (off + length f) (length (concat fields)) fields
          (omega (arith, length-append pre f)) refl
        ∙ append_assoc pre f (concat fields))

pub write_all :
    (n : ℕ) (fields : List (List ℕ))
    → n ≡ length (concat fields)
    → write_fields (zeros n) 0 fields ≡ concat fields
write_all n fields p = write_fields-append [] 0 n fields refl p

set_new_prev_hash_layout :
    (channel_id job_id : ℕ) (prev_hash : List ℕ) (min_ntime n_bits : ℕ)
    → length prev_hash ≡ 32
    → encode_set_new_prev_hash channel_id job_id prev_hash min_ntime n_bits
      ≡ le32 channel_id ++ (le32 job_id ++ (prev_hash ++ (le32 min_ntime ++ le32 n_bits)))
unfolding encode_set_new_prev_hash put_u32_le write_fields
set_new_prev_hash_layout channel_id job_id prev_hash min_ntime n_bits h =
    let end : 8 + length prev_hash ≡ 40 = omega arith in
    rw end at (
      write_all 48 (le32 channel_id ∷ le32 job_id ∷ prev_hash ∷ le32 min_ntime ∷ le32 n_bits ∷ [])
        (omega (arith, h, length-append prev_hash (le32 min_ntime ++ le32 n_bits))))

-- An identifier and one more field.
after_id :
    (id : ℕ) (field : List ℕ)
    → copy_at (copy_at (zeros (4 + length field)) 0 (le32 id)) 4 field ≡ le32 id ++ field
unfolding write_fields
after_id id field =
    let written : write_fields (zeros (4 + length field)) 0 (le32 id ∷ field ∷ [])
        ≡ le32 id ++ (field ++ []) =
      write_all (4 + length field) (le32 id ∷ field ∷ []) (omega (arith, length-append field [])) in
    rw append-nil at written

module _ (channel_id : ℕ) where
  -- SetupConnection.Success, SetNewPrevHash and SubmitShares.Success are their fields in wire
  -- order, for a 32-byte hash: every byte of the buffer is written, and no field overwrites
  -- another.
  fixed_layouts :
      (used_version flags job_id min_ntime n_bits last_seq_num accepted sum_diff : ℕ)
      (prev_hash : List ℕ)
      → length prev_hash ≡ 32
      → (encode_setup_connection_success used_version flags ≡ le16 used_version ++ le32 flags)
        × (encode_set_new_prev_hash channel_id job_id prev_hash min_ntime n_bits
            ≡ le32 channel_id ++ (le32 job_id ++ (prev_hash ++ (le32 min_ntime ++ le32 n_bits))))
        × (encode_submit_shares_success channel_id last_seq_num accepted sum_diff
            ≡ le32 channel_id ++ (le32 last_seq_num ++ (le32 accepted ++ le64 sum_diff)))
  unfolding encode_setup_connection_success encode_set_new_prev_hash encode_submit_shares_success
      put_u16_le put_u32_le put_u64_le copy_at
  fixed_layouts used_version flags job_id min_ntime n_bits last_seq_num accepted sum_diff prev_hash
        h =
      (refl, set_new_prev_hash_layout channel_id job_id prev_hash min_ntime n_bits h, refl)

  -- The error messages are an identifier or two and the counted error code, of at most 255
  -- bytes.
  pub error_layouts :
      (seq_num : ℕ) (err_code : List ℕ)
      → length err_code ≤ 255
      → (encode_setup_connection_error channel_id err_code
          ≡ ok (le32 channel_id ++ counted err_code))
        × (encode_open_standard_mining_channel_error channel_id err_code
            ≡ ok (le32 channel_id ++ counted err_code))
        × (encode_open_extended_mining_channel_error channel_id err_code
            ≡ ok (le32 channel_id ++ counted err_code))
        × (encode_submit_shares_error channel_id seq_num err_code
            ≡ ok (le32 channel_id ++ (le32 seq_num ++ counted err_code)))
  unfolding encode_setup_connection_error encode_open_standard_mining_channel_error
      encode_open_extended_mining_channel_error encode_submit_shares_error put_u32_le write_fields
  error_layouts seq_num err_code h =
      let code = encode_str0_255_lem err_code h in
      let one = after_id channel_id (counted err_code) in
      let two : write_fields (zeros (8 + length (counted err_code))) 0
            (le32 channel_id ∷ le32 seq_num ∷ counted err_code ∷ [])
          ≡ le32 channel_id ++ (le32 seq_num ++ (counted err_code ++ [])) =
        write_all (8 + length (counted err_code))
          (le32 channel_id ∷ le32 seq_num ∷ counted err_code ∷ [])
          (omega (arith, length-append err_code [])) in
      (
        rw code (ap ok one),
        rw code (ap ok one),
        rw code (ap ok one),
        rw code (ap ok (rw append-nil at two)),
      )

-- OpenStandardMiningChannel.Success is its fields in wire order, for a 32-byte target and an
-- extranonce prefix of at most 32 bytes.
pub open_standard_layout :
    (request_id channel_id : ℕ) (target prefix : List ℕ) (group_channel_id : ℕ)
    → length target ≡ 32
    → length prefix ≤ 32
    → encode_open_standard_mining_channel_success request_id channel_id target prefix
        group_channel_id
      ≡ ok (
          le32 request_id
          ++ (le32 channel_id ++ (target ++ (counted prefix ++ le32 group_channel_id))))
unfolding encode_open_standard_mining_channel_success put_u32_le write_fields
open_standard_layout request_id channel_id target prefix group_channel_id h k =
    rw (encode_u256_lem target h, encode_b0_32_lem prefix k)
      (ap ok (
        write_all (4 + 4 + length target + length (counted prefix) + 4)
          (le32 request_id ∷ le32 channel_id ∷ target ∷ counted prefix ∷ le32 group_channel_id ∷ [])
          (omega (
            arith,
            length-append target (counted prefix ++ le32 group_channel_id),
            length-append prefix (le32 group_channel_id),
          ))))

-- OpenExtendedMiningChannel.Success is its fields in wire order, with the group channel at the
-- end, for a 32-byte target and an extranonce prefix of at most 32 bytes.
pub open_extended_layout :
    (request_id channel_id : ℕ) (target : List ℕ) (extranonce_size : ℕ) (prefix : List ℕ)
    (group_channel_id : ℕ)
    → length target ≡ 32
    → length prefix ≤ 32
    → encode_open_extended_mining_channel_success request_id channel_id target extranonce_size
        prefix group_channel_id
      ≡ ok (
          le32 request_id
          ++ (le32 channel_id
              ++ (target ++ (le16 extranonce_size ++ (counted prefix ++ le32 group_channel_id)))))
unfolding encode_open_extended_mining_channel_success put_u16_le put_u32_le write_fields
open_extended_layout request_id channel_id target extranonce_size prefix group_channel_id h k =
    rw (encode_u256_lem target h, encode_b0_32_lem prefix k)
      (ap ok (
        write_all (4 + 4 + length target + 2 + length (counted prefix) + 4)
          (le32 request_id
            ∷ le32 channel_id
            ∷ target
            ∷ le16 extranonce_size
            ∷ counted prefix
            ∷ le32 group_channel_id
            ∷ [])
          (omega (
            arith,
            length-append target
                (le16 extranonce_size ++ (counted prefix ++ le32 group_channel_id)),
            length-append prefix (le32 group_channel_id),
          ))))

-- SetTarget is the channel and the 32 bytes of the target.
pub set_target_layout :
    (channel_id : ℕ) (target : List ℕ)
    → length target ≡ 32
    → encode_set_target channel_id target ≡ ok (le32 channel_id ++ target)
unfolding encode_set_target put_u32_le
set_target_layout channel_id target h =
    rw (encode_u256_lem target h) (ap ok (after_id channel_id target))
