-- ===== src/Sv2/TargetLaws.antt =====
-- The targets of pkg/stratumv2/pow.go and pkg/coin/difficulty.go: compact forms, bytes, and shares.
use native.Mathlib.Nat.{pow-suc}
use forgenx_engine.Prelude.{
  ◌≢◌, ℕ, zero, suc, ◌+◌, ◌-◌, ◌*◌, ◌/◌, ◌%◌, ◌^◌, ◌≤◌, ◌<◌, ◌≡◌, refl, sym, ap, ◌∙◌, true, false,
  List, [], ◌∷◌, ◌++◌, some, bit_and, leb, ◌==◌, length, arith, append-nil, length-append,
  length-replicate,
}
use forgenx_engine.Prelude.Bits.{mul-pow-suc, bit_and_digit, bit_and-mask}
use forgenx_engine.Prelude.Bytes.{zeros, copy_at, copy_at-field, IsBytes, IsBytes-append}
use forgenx_engine.Prelude.Int.{pos, ◌-ℤ◌}
use forgenx_engine.Coinbase.Script.{reverse_bytes}
use forgenx_engine.Coin.Base58.{big_bytes}
use forgenx_engine.Coin.Difficulty.{compact_to_big, set_bytes, padded_bytes, hash_meets_target}
use forgenx_engine.Sv2.Target.{n_bits_to_target, target_to_bytes, bytes_to_target}
use forgenx_engine.Sv2.ByteLaws.{
  set_bytes-reverse, base256, reverse-big_bytes, length-base256, from_le-base256, base256-IsBytes,
  reverse-reverse, length-reverse, reverse-IsBytes, zeros-IsBytes, set_bytes-padded,
}

-- One bit of a number, `a & (1 << k)`.
bit_and-power : (k q r : ℕ) → r < 2 ^ k → bit_and (q * 2 ^ k + r) (2 ^ k) ≡ q % 2 * 2 ^ k
bit_and-power zero q r h =
    let alone : q * 2 ^ 0 + r ≡ q = omega arith in rw alone (omega (arith, bit_and-mask 1 q 1 refl))
bit_and-power (suc k) q r h =
    let top : (q * 2 ^ suc k + r) / 2 ≡ q * 2 ^ k + r / 2 = omega (arith, mul-pow-suc q k) in
    let one : 2 ^ suc k / 2 ≡ 2 ^ k = omega (arith, pow-suc 2 k) in
    let halved : bit_and ((q * 2 ^ suc k + r) / 2) (2 ^ suc k / 2) ≡ q % 2 * 2 ^ k =
      rw (top, one) (bit_and-power k q (r / 2) (omega (arith, pow-suc 2 k))) in
    omega (
      arith,
      mul-pow-suc q k,
      mul-pow-suc (q % 2) k,
      pow-suc 2 k,
      bit_and_digit (q * 2 ^ suc k + r) (2 ^ suc k),
      halved,
    )

sign_bit : (c : ℕ) → bit_and c 0x00800000 ≡ c / 2 ^ 23 % 2 * 2 ^ 23
sign_bit c =
    let whole : c / 2 ^ 23 * 2 ^ 23 + c % 2 ^ 23 ≡ c = omega arith in
    rw whole at (bit_and-power 23 (c / 2 ^ 23) (c % 2 ^ 23) (omega arith))

same_mantissa : (c : ℕ) → bit_and c 0x00800000 ≡ 0 → bit_and c 0x007fffff ≡ bit_and c 0x00ffffff
same_mantissa c h =
    omega (arith, sign_bit c, bit_and-mask 23 c 0x007fffff refl, bit_and-mask 24 c 0x00ffffff refl)

-- On a compact target whose sign bit is clear, CompactToBig of pkg/coin and NBitsToTarget of
-- pkg/stratumv2 agree, so that the servers of both protocols find the same hashes to be blocks.
pub compact_to_big-eq-n_bits_to_target :
    (c : ℕ) → bit_and c 0x00800000 ≡ 0 → compact_to_big c ≡ pos (n_bits_to_target c)
unfolding compact_to_big n_bits_to_target
compact_to_big-eq-n_bits_to_target c h = rw (h, same_mantissa c h)

not_above_zero :
    (hash : List ℕ) (t : ℕ) → hash_meets_target hash (pos 0 -ℤ pos t) ≡ true → set_bytes hash ≡ 0
unfolding hash_meets_target ◌-ℤ◌
not_above_zero hash zero m = ground arith
not_above_zero hash (suc t) m = ground arith

not-equal_test : (a b : ℕ) → a ≢ b → (a == b) ≡ false
not-equal_test a b h = ground arith

-- Where the bit is set, CompactToBig is not above zero, and no hash but that of value zero meets it.
pub compact_to_big-raised :
    (c : ℕ) (hash : List ℕ)
    → bit_and c 0x00800000 ≢ 0
    → hash_meets_target hash (compact_to_big c) ≡ true
    → set_bytes hash ≡ 0
unfolding compact_to_big
compact_to_big-raised c hash h m =
    not_above_zero hash _ (rw (not-equal_test (bit_and c 0x00800000) 0 h) at m)

abbrev raw_bytes : ℕ → List ℕ
raw_bytes t = big_bytes 33 t []

reverse-raw_bytes : (t : ℕ) → reverse_bytes (raw_bytes t) ≡ base256 33 t
reverse-raw_bytes t = reverse-big_bytes 33 t [] ∙ unfold reverse_bytes in refl

length-raw_bytes : (t : ℕ) → t < 2 ^ 256 → length (raw_bytes t) ≤ 32
length-raw_bytes t h = omega (
  arith,
  length-reverse (raw_bytes t),
  ap length (reverse-raw_bytes t),
  length-base256 33 32 t (omega arith),
)

set_bytes-raw_bytes : (t : ℕ) → t < 2 ^ 256 → set_bytes (raw_bytes t) ≡ t
set_bytes-raw_bytes t h =
    rw
      (
        sym (reverse-reverse (raw_bytes t)),
        set_bytes-reverse (reverse_bytes (raw_bytes t)),
        reverse-raw_bytes t,
      )
      (from_le-base256 33 t (omega arith))

-- A field at the end of a buffer of zeros.
copy_at-last :
    (src : List ℕ) (m n : ℕ) → n ≡ m + length src → copy_at (zeros n) m src ≡ zeros m ++ src
unfolding copy_at
copy_at-last src zero n h = copy_at-field [] src 0 n 0 refl (omega arith) ∙ append-nil src
copy_at-last src (suc m) zero h = absurd (omega arith)
copy_at-last src (suc m) (suc n) h = ap (λ l. 0 ∷ l) (copy_at-last src m n (omega arith))

padded_bytes_lem :
    (t : ℕ) → t < 2 ^ 256 → padded_bytes t ≡ some (zeros (32 - length (raw_bytes t)) ++ raw_bytes t)
unfolding padded_bytes
padded_bytes_lem t h =
    let raw = raw_bytes t in
    let short = length-raw_bytes t h in
    let fits : leb (length raw) 32 ≡ true = ground arith in
    rw (fits, copy_at-last raw (32 - length raw) 32 (omega arith))

-- A target below 2^256 is written as 32 bytes that BytesToTarget reads back, so that no channel gets
-- another target than the one that its shares are held to.
pub bytes_to_target-target_to_bytes :
    (t : ℕ)
    → t < 2 ^ 256
    → (b : List ℕ) × (target_to_bytes t ≡ some b)
      × (length b ≡ 32)
      × IsBytes b
      × (bytes_to_target b ≡ t)
unfolding target_to_bytes bytes_to_target
bytes_to_target-target_to_bytes t h =
    let raw = raw_bytes t in
    let padded = zeros (32 - length raw) ++ raw in
    let short = length-raw_bytes t h in
    let size : length (reverse_bytes padded) ≡ 32 = omega (
      arith,
      length-reverse padded,
      length-append (zeros (32 - length raw)) raw,
      length-replicate {A = ℕ} (32 - length raw) 0,
    ) in
    let raw-IsBytes : IsBytes raw =
      rw (reverse-reverse raw) at
        (reverse-IsBytes (reverse_bytes raw) (rw (reverse-raw_bytes t) (base256-IsBytes 33 t))) in
    (
      reverse_bytes padded,
      rw (padded_bytes_lem t h),
      size,
      reverse-IsBytes padded
          (IsBytes-append (zeros (32 - length raw)) raw (zeros-IsBytes _) raw-IsBytes),
      rw (size, reverse-reverse padded, set_bytes-padded (32 - length raw) raw)
          (set_bytes-raw_bytes t h),
    )
