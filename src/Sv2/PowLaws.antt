-- ===== src/Sv2/PowLaws.antt =====
-- pkg/stratumv2/pow.go: BuildHeader.
use forgenx_engine.Prelude.{ℕ, ◌+◌, ◌≡◌, sym, List, [], ◌∷◌, ◌++◌, arith, length, length-append}
use forgenx_engine.Prelude.Bytes.{le32}
use forgenx_engine.Sv2.EncodeLaws.{write_fields, write_all}
use forgenx_engine.Sv2.Pow.{build_header}

-- A header with 32-byte hashes is its six fields in the order of the protocol, and 80 bytes long.
pub build_header_lem :
    (version : ℕ) (prev_hash merkle_root : List ℕ) (n_time n_bits nonce : ℕ)
    → length prev_hash ≡ 32
    → length merkle_root ≡ 32
    → (build_header version prev_hash merkle_root n_time n_bits nonce
        ≡ le32 version
          ++ (prev_hash ++ (merkle_root ++ (le32 n_time ++ (le32 n_bits ++ le32 nonce)))))
      × (length (build_header version prev_hash merkle_root n_time n_bits nonce) ≡ 80)
unfolding build_header write_fields
build_header_lem version prev_hash merkle_root n_time n_bits nonce p q =
    let tail = le32 n_time ++ (le32 n_bits ++ le32 nonce) in
    let size : 80 ≡ length (le32 version ++ (prev_hash ++ (merkle_root ++ tail))) =
      omega
        (arith, length-append prev_hash (merkle_root ++ tail), length-append merkle_root tail) in
    let at₂ : 4 + length prev_hash ≡ 36 = omega arith in
    let at₃ : 36 + length merkle_root ≡ 68 = omega arith in
    let written =
      rw (at₂, at₃) at
        (write_all 80
          (le32 version ∷ prev_hash ∷ merkle_root ∷ le32 n_time ∷ le32 n_bits ∷ le32 nonce ∷ [])
          size) in
    (written, rw written (sym size))
