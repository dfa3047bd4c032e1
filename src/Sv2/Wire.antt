-- ===== src/Sv2/Wire.antt =====
-- The wire types of pkg/stratumv2/codec.go and messages.go: length-prefixed strings and byte
-- slices, fixed 256-bit values, and sequences of them.
use forgenx_engine.Prelude.{
  ℕ, suc, ◌+◌, ◌*◌, List, [], ◌∷◌, Result, ok, err, ltb, leb, ◌==◌, if◌then◌else◌, length, take,
}
use forgenx_engine.Prelude.Bytes.{u8, u16, zeros, copy_at, slice, byte_at, le16}

pub data WireError : Type 0 where
  str_too_long str_offset str_past_buffer : WireError
  bytes_too_long bytes_offset bytes_length bytes_past_buffer : WireError
  u256_size u256_past_buffer : WireError
  b0_64k_too_long : WireError
  payload_short : WireError

unfoldable pub encode_str0_255 : List ℕ → Result WireError (List ℕ)
encode_str0_255 s =
    if ltb 255 (length s)
    then err str_too_long
    else let b = zeros (1 + length s) in
      let b' = copy_at b 0 (u8 (length s) ∷ []) in ok (copy_at b' 1 s)

-- The string, and the number of bytes consumed.
unfoldable pub decode_str0_255 : List ℕ → ℕ → Result WireError (List ℕ × ℕ)
decode_str0_255 buf offset =
    if leb (length buf) offset
    then err str_offset
    else let slen = byte_at buf offset in
      let end = offset + 1 + slen in
      if ltb (length buf) end
      then err str_past_buffer
      else ok (slice buf (offset + 1) end, slen + 1)

unfoldable pub encode_b0_32 : List ℕ → Result WireError (List ℕ)
encode_b0_32 b =
    if ltb 32 (length b)
    then err bytes_too_long
    else let out = zeros (1 + length b) in
      let out' = copy_at out 0 (u8 (length b) ∷ []) in ok (copy_at out' 1 b)

unfoldable pub decode_b0_32 : List ℕ → ℕ → Result WireError (List ℕ × ℕ)
decode_b0_32 buf offset =
    if leb (length buf) offset
    then err bytes_offset
    else let blen = byte_at buf offset in
      if ltb 32 blen
      then err bytes_length
      else let end = offset + 1 + blen in
        if ltb (length buf) end
        then err bytes_past_buffer
        else ok (copy_at (zeros blen) 0 (slice buf (offset + 1) end), blen + 1)

unfoldable pub encode_u256 : List ℕ → Result WireError (List ℕ)
encode_u256 b = if length b == 32 then ok (copy_at (zeros 32) 0 b) else err u256_size

unfoldable pub decode_u256 : List ℕ → ℕ → Result WireError (List ℕ × ℕ)
decode_u256 buf offset =
    let end = offset + 32 in
    if ltb (length buf) end
    then err u256_past_buffer
    else ok (copy_at (zeros 32) 0 (slice buf offset end), 32)

unfoldable pub encode_b0_64k : List ℕ → Result WireError (List ℕ)
encode_b0_64k payload =
    if ltb 65535 (length payload)
    then err b0_64k_too_long
    else let b = zeros (2 + length payload) in
      let b' = copy_at b 0 (le16 (u16 (length payload))) in ok (copy_at b' 2 payload)

-- `copy(b[1+i*32:], h[:])` for each hash.
unfoldable pub copy_hashes : List ℕ → ℕ → List (List ℕ) → List ℕ
copy_hashes b i [] = b
copy_hashes b i (h ∷ hashes) = copy_hashes (copy_at b (1 + i * 32) h) (suc i) hashes

-- The hashes are arrays of 32 bytes; those past the 255th are dropped.
unfoldable pub encode_seq_u256 : List (List ℕ) → List ℕ
encode_seq_u256 hashes =
    let capped = if ltb 255 (length hashes) then take 255 hashes else hashes in
    let b = zeros (1 + 32 * length capped) in
    copy_hashes (copy_at b 0 (u8 (length capped) ∷ [])) 0 capped
