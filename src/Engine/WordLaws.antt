-- ===== src/Engine/WordLaws.antt =====
-- pkg/engine: swapHashEndianness of jobmanager.go and swapEndianWords of sharevalidator.go.
use forgenx_engine.Prelude.{
  ℕ, zero, suc, ◌*◌, ◌≡◌, refl, ap, true, List, [], ◌∷◌, ◌==◌, length, arith,
}
use forgenx_engine.Prelude.Bytes.{IsBytes}
use forgenx_engine.Prelude.Hex.{hex_encode, hex_decode-hex_encode}
use forgenx_engine.Coinbase.Script.{reverse_bytes}
use forgenx_engine.Sv2.ByteLaws.{length-reverse, reverse-IsBytes}
use forgenx_engine.Engine.Words.{
  swap_words, swap_words_into, swap_hash_endianness, swap_endian_words,
}

length-hex_encode : (bs : List ℕ) → length (hex_encode bs) ≡ 2 * length bs
unfolding hex_encode
length-hex_encode [] = omega arith
length-hex_encode (b ∷ bs) = omega (arith, length-hex_encode bs)

swap_words_into-swap_words :
    (k : ℕ) (xs : List ℕ) → length xs ≡ 4 * k → swap_words_into (swap_words xs) ≡ xs
unfolding swap_words_into swap_words
swap_words_into-swap_words k [] h = refl
swap_words_into-swap_words k (a ∷ []) h = absurd (omega arith)
swap_words_into-swap_words k (a ∷ b ∷ []) h = absurd (omega arith)
swap_words_into-swap_words k (a ∷ b ∷ c ∷ []) h = absurd (omega arith)
swap_words_into-swap_words zero (a ∷ b ∷ c ∷ d ∷ xs) h = absurd (omega arith)
swap_words_into-swap_words (suc k) (a ∷ b ∷ c ∷ d ∷ xs) h =
    ap (λ l. a ∷ b ∷ c ∷ d ∷ l) (swap_words_into-swap_words k xs (omega arith))

swap_words-IsBytes : (xs : List ℕ) → IsBytes xs → IsBytes (swap_words xs)
unfolding swap_words
swap_words-IsBytes [] h = tt
swap_words-IsBytes (a ∷ []) h = h
swap_words-IsBytes (a ∷ b ∷ []) h = h
swap_words-IsBytes (a ∷ b ∷ c ∷ []) h = h
swap_words-IsBytes (a ∷ b ∷ c ∷ d ∷ xs) (ha, (hb, (hc, (hd, hs)))) =
    (hd, (hc, (hb, (ha, swap_words-IsBytes xs hs))))

-- The previous hash of a job, which is the hash of 32 bytes that the node shows turned into the words
-- of Stratum, is read back for the header as those bytes in reverse, the order of the header.
pub swap_endian_words-swap_hash_endianness :
    (hash : List ℕ)
    → IsBytes hash
    → length hash ≡ 32
    → swap_endian_words (swap_hash_endianness (hex_encode hash)) ≡ reverse_bytes hash
unfolding swap_endian_words swap_hash_endianness
swap_endian_words-swap_hash_endianness hash bytes size =
    let turned = reverse_bytes hash in
    let turned-IsBytes : IsBytes turned = reverse-IsBytes hash bytes in
    let whole : (length (hex_encode hash) == 64) ≡ true = ground (arith, length-hex_encode hash) in
    rw
      (
        whole,
        hex_decode-hex_encode hash bytes,
        hex_decode-hex_encode (swap_words turned) (swap_words-IsBytes turned turned-IsBytes),
      )
      (swap_words_into-swap_words 8 turned (omega (arith, length-reverse hash)))
