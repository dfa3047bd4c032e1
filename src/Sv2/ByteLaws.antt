-- ===== src/Sv2/ByteLaws.antt =====
-- Numbers as bytes, in the two orders of pkg/stratumv2/pow.go and of big.Int in pkg/coin/difficulty.go.
use native.Mathlib.Nat.{pow-suc}
use forgenx_engine.Prelude.{
  if_both, ℕ, zero, suc, ◌+◌, ◌*◌, ◌/◌, ◌%◌, ◌^◌, ◌≤◌, ◌<◌, ◌≡◌, refl, List, [], ◌∷◌, ◌++◌, ltb,
  if◌then◌else◌, length, arith, append-nil, append_assoc, length-append,
}
use forgenx_engine.Prelude.Bytes.{zeros, from_le, IsBytes, IsBytes-append}
use forgenx_engine.Coinbase.Script.{reverse_bytes}
use forgenx_engine.Coin.Base58.{big_bytes}
use forgenx_engine.Coin.Difficulty.{set_bytes, set_bytes_from}

pub set_bytes_from-append :
    (bs : List ℕ) (acc b : ℕ) → set_bytes_from acc (bs ++ b ∷ []) ≡ set_bytes_from acc bs * 256 + b
unfolding set_bytes_from
set_bytes_from-append [] acc b = refl
set_bytes_from-append (a ∷ bs) acc b = set_bytes_from-append bs (acc * 256 + a) b

pub set_bytes-reverse : (bs : List ℕ) → set_bytes (reverse_bytes bs) ≡ from_le bs
unfolding set_bytes reverse_bytes
set_bytes-reverse [] = unfold set_bytes_from in refl
set_bytes-reverse (b ∷ bs) =
    omega (arith, set_bytes_from-append (reverse_bytes bs) 0 b, set_bytes-reverse bs)

-- The digits of `n` in base 256, lowest first.
pub base256 : ℕ → ℕ → List ℕ
base256 zero n = []
base256 (suc fuel) n = let rest = base256 fuel (n / 256) in if ltb 0 n then n % 256 ∷ rest else []

pub reverse-big_bytes :
    (fuel n : ℕ) (bytes : List ℕ)
    → reverse_bytes (big_bytes fuel n bytes) ≡ reverse_bytes bytes ++ base256 fuel n
unfolding big_bytes base256 reverse_bytes
reverse-big_bytes zero n bytes = rw append-nil
reverse-big_bytes (suc fuel) n bytes = ground (
  arith,
  append-nil (reverse_bytes bytes),
  append_assoc (reverse_bytes bytes) (n % 256 ∷ []) (base256 fuel (n / 256)),
  reverse-big_bytes fuel (n / 256) (n % 256 ∷ bytes),
)

pub length-base256 : (fuel k n : ℕ) → n < 256 ^ k → length (base256 fuel n) ≤ k
unfolding base256
length-base256 zero k n h = omega arith
length-base256 (suc fuel) zero n h = ground arith
length-base256 (suc fuel) (suc k) n h =
    ground (arith, pow-suc 256 k, length-base256 fuel k (n / 256))

pub from_le-base256 : (fuel n : ℕ) → n < 256 ^ fuel → from_le (base256 fuel n) ≡ n
unfolding base256
from_le-base256 zero n h = omega arith
from_le-base256 (suc fuel) n h = ground (arith, pow-suc 256 fuel, from_le-base256 fuel (n / 256))

pub base256-IsBytes : (fuel n : ℕ) → IsBytes (base256 fuel n)
unfolding base256
base256-IsBytes zero n = tt
base256-IsBytes (suc fuel) n =
    if_both IsBytes (ltb 0 n) (n % 256 ∷ base256 fuel (n / 256)) []
      (omega arith, base256-IsBytes fuel (n / 256)) tt

reverse-append_one : (xs : List ℕ) (y : ℕ) → reverse_bytes (xs ++ y ∷ []) ≡ y ∷ reverse_bytes xs
unfolding reverse_bytes
reverse-append_one [] y = refl
reverse-append_one (x ∷ xs) y = rw (reverse-append_one xs y)

pub reverse-reverse : (xs : List ℕ) → reverse_bytes (reverse_bytes xs) ≡ xs
unfolding reverse_bytes
reverse-reverse [] = refl
reverse-reverse (x ∷ xs) = rw (reverse-append_one (reverse_bytes xs) x, reverse-reverse xs)

pub length-reverse : (xs : List ℕ) → length (reverse_bytes xs) ≡ length xs
unfolding reverse_bytes
length-reverse [] = refl
length-reverse (x ∷ xs) =
    omega (arith, length-append (reverse_bytes xs) (x ∷ []), length-reverse xs)

pub reverse-IsBytes : (xs : List ℕ) → IsBytes xs → IsBytes (reverse_bytes xs)
unfolding reverse_bytes
reverse-IsBytes [] h = tt
reverse-IsBytes (x ∷ xs) h =
    IsBytes-append (reverse_bytes xs) (x ∷ []) (reverse-IsBytes xs h.1) (h.0, tt)

pub zeros-IsBytes : (n : ℕ) → IsBytes (zeros n)
zeros-IsBytes zero = tt
zeros-IsBytes (suc n) = (omega arith, zeros-IsBytes n)

set_bytes_from-zeros :
    (n : ℕ) (bs : List ℕ) → set_bytes_from 0 (zeros n ++ bs) ≡ set_bytes_from 0 bs
unfolding set_bytes_from
set_bytes_from-zeros zero bs = refl
set_bytes_from-zeros (suc n) bs = set_bytes_from-zeros n bs

pub set_bytes-padded : (n : ℕ) (bs : List ℕ) → set_bytes (zeros n ++ bs) ≡ set_bytes bs
unfolding set_bytes
set_bytes-padded n bs = set_bytes_from-zeros n bs
