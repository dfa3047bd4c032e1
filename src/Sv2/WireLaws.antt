-- ===== src/Sv2/WireLaws.antt =====
-- pkg/stratumv2/codec.go: the wire types.
use forgenx_engine.Prelude.{
  ℕ, suc, ◌+◌, ◌-◌, ◌*◌, ◌≤◌, ◌<◌, ◌≡◌, refl, sym, ◌∙◌, List, [], ◌∷◌, ◌++◌, append-nil,
  append_assoc, ok, ltb, leb, ◌==◌, length, length-append, arith, true, false,
}
use forgenx_engine.Prelude.Bytes.{
  u8, u16, zeros, copy_at, copy_at-field, slice, slice-field, byte_at, le16, All,
}
use forgenx_engine.Sv2.Wire.{
  encode_str0_255, decode_str0_255, encode_b0_32, decode_b0_32, encode_u256, decode_u256,
  encode_b0_64k, copy_hashes, encode_seq_u256,
}

-- A byte that counts, and the bytes.
abbrev pub counted : List ℕ → List ℕ
counted s = length s ∷ s

-- `make`, the length into the first byte, the bytes behind it.
write-counted :
    (s : List ℕ)
    → length s < 256
    → copy_at (copy_at (zeros (1 + length s)) 0 (u8 (length s) ∷ [])) 1 s ≡ counted s
write-counted s h =
    let small : u8 (length s) ≡ length s = omega arith in
    rw (
      copy_at-field [] (u8 (length s) ∷ []) 0 (1 + length s) (length s) refl refl,
      copy_at-field (u8 (length s) ∷ []) s 1 (length s) 0 refl (omega arith),
      small,
      append-nil,
    )

pub encode_str0_255_lem : (s : List ℕ) → length s ≤ 255 → encode_str0_255 s ≡ ok (counted s)
unfolding encode_str0_255
encode_str0_255_lem s h =
    let small : ltb 255 (length s) ≡ false = ground arith in
    rw (small, write-counted s (omega arith))

pub encode_b0_32_lem : (b : List ℕ) → length b ≤ 32 → encode_b0_32 b ≡ ok (counted b)
unfolding encode_b0_32
encode_b0_32_lem b h =
    let small : ltb 32 (length b) ≡ false = ground arith in
    rw (small, write-counted b (omega arith))

copy_self : (b : List ℕ) (n : ℕ) → n ≡ length b → copy_at (zeros n) 0 b ≡ b
copy_self b n p = copy_at-field [] b 0 n 0 refl (omega (arith, p)) ∙ append-nil b

pub encode_u256_lem : (b : List ℕ) → length b ≡ 32 → encode_u256 b ≡ ok b
unfolding encode_u256
encode_u256_lem b h =
    let size : (length b == 32) ≡ true = ground arith in rw (size, copy_self b 32 (sym h))

-- The byte at the end of a prefix.
byte_at-append :
    (pre : List ℕ) (b : ℕ) (rest : List ℕ) → byte_at (pre ++ (b ∷ rest)) (length pre) ≡ b
byte_at-append [] b rest = refl
byte_at-append (x ∷ pre) b rest = byte_at-append pre b rest

-- Both decoders cut the counted bytes out of any surroundings.
slice-counted :
    (pre s rest : List ℕ) (offset end : ℕ)
    → offset ≡ length pre
    → end ≡ offset + 1 + length s
    → slice (pre ++ (counted s ++ rest)) (offset + 1) end ≡ s
slice-counted pre s rest offset end p q =
    let assoc : pre ++ (counted s ++ rest) ≡ (pre ++ length s ∷ []) ++ (s ++ rest) =
      sym (append_assoc pre (length s ∷ []) (s ++ rest)) in
    let n : end - (offset + 1) ≡ length s = omega arith in
    rw (n, assoc)
      (slice-field (pre ++ length s ∷ []) s rest (offset + 1) (length s)
        (omega (arith, length-append pre (length s ∷ []))) refl)

length-around :
    (pre s rest : List ℕ) → length (pre ++ (s ++ rest)) ≡ length pre + (length s + length rest)
length-around pre s rest = omega (arith, length-append pre (s ++ rest), length-append s rest)

pub decode_str0_255-counted :
    (pre s rest : List ℕ) (offset : ℕ)
    → offset ≡ length pre
    → decode_str0_255 (pre ++ (counted s ++ rest)) offset ≡ ok (s, length s + 1)
unfolding decode_str0_255
decode_str0_255-counted pre s rest offset p =
    let inside : leb (length (pre ++ (counted s ++ rest))) offset ≡ false =
      ground (arith, length-around pre (counted s) rest) in
    let fits : ltb (length (pre ++ (counted s ++ rest))) (offset + 1 + length s) ≡ false =
      ground (arith, length-around pre (counted s) rest) in
    let count : byte_at (pre ++ (counted s ++ rest)) offset ≡ length s =
      rw p (byte_at-append pre (length s) (s ++ rest)) in
    rw (inside, count, fits, slice-counted pre s rest offset (offset + 1 + length s) p refl)

pub decode_b0_32-counted :
    (pre b rest : List ℕ) (offset : ℕ)
    → offset ≡ length pre
    → length b ≤ 32
    → decode_b0_32 (pre ++ (counted b ++ rest)) offset ≡ ok (b, length b + 1)
unfolding decode_b0_32
decode_b0_32-counted pre b rest offset p h =
    let inside : leb (length (pre ++ (counted b ++ rest))) offset ≡ false =
      ground (arith, length-around pre (counted b) rest) in
    let short : ltb 32 (length b) ≡ false = ground arith in
    let fits : ltb (length (pre ++ (counted b ++ rest))) (offset + 1 + length b) ≡ false =
      ground (arith, length-around pre (counted b) rest) in
    let count : byte_at (pre ++ (counted b ++ rest)) offset ≡ length b =
      rw p (byte_at-append pre (length b) (b ++ rest)) in
    rw (
      inside,
      count,
      short,
      fits,
      slice-counted pre b rest offset (offset + 1 + length b) p refl,
      copy_self b (length b) refl,
    )

pub decode_u256-field :
    (pre b rest : List ℕ) (offset : ℕ)
    → offset ≡ length pre
    → length b ≡ 32
    → decode_u256 (pre ++ (b ++ rest)) offset ≡ ok (b, 32)
unfolding decode_u256
decode_u256-field pre b rest offset p h =
    let fits : ltb (length (pre ++ (b ++ rest))) (offset + 32) ≡ false =
      ground (arith, length-around pre b rest) in
    let n : offset + 32 - offset ≡ 32 = omega arith in
    rw (fits, n, slice-field pre b rest offset 32 p (sym h), copy_self b 32 (sym h))

pub encode_b0_64k_lem :
    (b : List ℕ) → length b ≤ 65535 → encode_b0_64k b ≡ ok (le16 (length b) ++ b)
unfolding encode_b0_64k
encode_b0_64k_lem b h =
    let small : ltb 65535 (length b) ≡ false = ground arith in
    let width : u16 (length b) ≡ length b = omega arith in
    rw (
      small,
      width,
      copy_at-field [] (le16 (length b)) 0 (2 + length b) (length b) refl refl,
      copy_at-field (le16 (length b)) b 2 (length b) 0 refl (omega arith),
      append-nil,
    )

-- All the bytes of a list of hashes.
abbrev pub concat : List (List ℕ) → List ℕ
concat [] = []
concat (h ∷ hashes) = h ++ concat hashes

copy_hashes-append :
    (pre : List ℕ) (i n : ℕ) (hashes : List (List ℕ))
    → length pre ≡ 1 + i * 32
    → n ≡ 32 * length hashes
    → All (λ h. length h ≡ 32) hashes
    → copy_hashes (pre ++ zeros n) i hashes ≡ pre ++ concat hashes
unfolding copy_hashes
copy_hashes-append pre i n [] p q k = let none : n ≡ 0 = q in rw none
copy_hashes-append pre i n (h ∷ hashes) p q k =
    rw (copy_at-field pre h (1 + i * 32) n (32 * length hashes) (sym p) (omega (arith, k.0))) (
      copy_hashes-append (pre ++ h) (suc i) (32 * length hashes) hashes
        (omega (arith, length-append pre h, k.0)) refl k.1
      ∙ append_assoc pre h (concat hashes))

pub encode_seq_u256_lem :
    (hashes : List (List ℕ))
    → length hashes ≤ 255
    → All (λ h. length h ≡ 32) hashes
    → encode_seq_u256 hashes ≡ length hashes ∷ concat hashes
unfolding encode_seq_u256
encode_seq_u256_lem hashes h k =
    let capped : ltb 255 (length hashes) ≡ false = ground arith in
    let count : u8 (length hashes) ≡ length hashes = omega arith in
    rw
      (
        capped,
        count,
        copy_at-field [] (length hashes ∷ []) 0 (1 + 32 * length hashes) (32 * length hashes) refl
            refl,
      )
      (copy_hashes-append (length hashes ∷ []) 0 _ hashes (omega arith) refl k)
