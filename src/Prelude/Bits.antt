-- ===== src/Prelude/Bits.antt =====
-- Laws of `|` and `^` at variables, from the recursion on binary digits that they stand for.
use Prim.Native.Nat.{max, differ, digits, bitwise, bit_and-bitwise, bit_or-bitwise, bit_xor-bitwise}
use native.Mathlib.Nat.{mod-lt, div-add-mod', le_refl, pow-suc, one-le-pow, mul-one, add-zero}
use forgenx_engine.Prelude.{
  ℕ, zero, suc, ◌+◌, ◌*◌, ◌/◌, ◌%◌, ◌^◌, ◌≤◌, ◌<◌, min, bit_and, bit_or, bit_xor, ◌≡◌, refl, ap,
  ◌∙◌, dec_lt, arith, Bool, true, ◌&&◌, ltb, ◌==◌, if◌then◌else◌,
}

-- The fuel of `digits` does not matter once it reaches the first number.
module _ (base : ℕ → ℕ) (digit : ℕ → ℕ → ℕ) where
  digits-fuel_ge : (m n a b : ℕ) → a ≤ m → a ≤ n → digits base digit m a b ≡ digits base digit n a b
  digits-fuel_ge zero zero a b le le' = refl
  digits-fuel_ge zero (suc n) zero b le le' = refl
  digits-fuel_ge zero (suc n) (suc a) b le le' = absurd (omega arith)
  digits-fuel_ge (suc m) zero zero b le le' = refl
  digits-fuel_ge (suc m) zero (suc a) b le le' = absurd (omega arith)
  digits-fuel_ge (suc m) (suc n) zero b le le' = refl
  digits-fuel_ge (suc m) (suc n) (suc a) b le le' =
      rw (digits-fuel_ge m n (suc a / 2) (b / 2) (omega arith) (omega arith))

  bitwise-lowest :
      (a b : ℕ)
      → bitwise base digit (suc a) b
        ≡ bitwise base digit (suc a / 2) (b / 2) * 2 + digit (suc a % 2) (b % 2)
  bitwise-lowest a b =
      omega (arith, digits-fuel_ge a (suc a / 2) (suc a / 2) (b / 2) (omega arith) (le_refl _))

pub bit_or_digit : (a b : ℕ) → bit_or a b ≡ bit_or (a / 2) (b / 2) * 2 + max (a % 2) (b % 2)
bit_or_digit zero b = simp bit_or-bitwise (omega arith)
bit_or_digit (suc a) b = simp bit_or-bitwise (bitwise-lowest (λ y. y) max a b)

differ-eq-mod : (x y : ℕ) → x < 2 → y < 2 → differ x y ≡ (x + y) % 2
differ-eq-mod zero y hx hy = omega arith
differ-eq-mod (suc zero) zero hx hy = refl
differ-eq-mod (suc zero) (suc zero) hx hy = refl
differ-eq-mod (suc zero) (suc (suc y)) hx hy = absurd (omega arith)
differ-eq-mod (suc (suc x)) y hx hy = absurd (omega arith)

pub zero-bit_xor : (b : ℕ) → bit_xor 0 b ≡ b
zero-bit_xor b = bit_xor-bitwise 0 b

pub bit_xor_digit : (a b : ℕ) → bit_xor a b ≡ bit_xor (a / 2) (b / 2) * 2 + (a + b) % 2
bit_xor_digit zero b = omega (arith, zero-bit_xor b, zero-bit_xor (b / 2))
bit_xor_digit (suc a) b = omega (
  arith,
  bit_xor-bitwise (suc a) b,
  bit_xor-bitwise (suc a / 2) (b / 2),
  bitwise-lowest (λ y. y) differ a b,
  differ-eq-mod (suc a % 2) (b % 2) (omega arith) (omega arith),
)

bit_xor-half : (a b : ℕ) → bit_xor a b / 2 ≡ bit_xor (a / 2) (b / 2)
bit_xor-half a b = omega (arith, bit_xor_digit a b)

-- The laws go from `a / 2` to `a`, by recursion on a bound.
bit_xor-comm_below : (n a b : ℕ) → a ≤ n → b ≤ n → bit_xor a b ≡ bit_xor b a
bit_xor-comm_below zero zero zero ha hb = refl
bit_xor-comm_below zero zero (suc b) ha hb = absurd (omega arith)
bit_xor-comm_below zero (suc a) b ha hb = absurd (omega arith)
bit_xor-comm_below (suc n) a b ha hb = omega (
  arith,
  bit_xor_digit a b,
  bit_xor_digit b a,
  bit_xor-comm_below n (a / 2) (b / 2) (omega arith) (omega arith),
)

pub bit_xor_comm : (a b : ℕ) → bit_xor a b ≡ bit_xor b a
bit_xor_comm a b = bit_xor-comm_below (a + b) a b (omega arith) (omega arith)

pub bit_xor-zero : (a : ℕ) → bit_xor a 0 ≡ a
bit_xor-zero a = bit_xor_comm a 0 ∙ zero-bit_xor a

bit_xor-assoc_below :
    (n a b c : ℕ) → a ≤ n → b ≤ n → c ≤ n → bit_xor (bit_xor a b) c ≡ bit_xor a (bit_xor b c)
bit_xor-assoc_below zero zero b c ha hb hc = rw (zero-bit_xor, zero-bit_xor)
bit_xor-assoc_below zero (suc a) b c ha hb hc = absurd (omega arith)
bit_xor-assoc_below (suc n) a b c ha hb hc = ground (
  arith,
  bit_xor_digit (bit_xor a b) c,
  bit_xor_digit a (bit_xor b c),
  bit_xor_digit a b,
  bit_xor_digit b c,
  bit_xor-half a b,
  bit_xor-half b c,
  bit_xor-assoc_below n (a / 2) (b / 2) (c / 2) (omega arith) (omega arith) (omega arith),
)

pub bit_xor_assoc : (a b c : ℕ) → bit_xor (bit_xor a b) c ≡ bit_xor a (bit_xor b c)
bit_xor_assoc a b c =
    bit_xor-assoc_below (a + b + c) a b c (omega arith) (omega arith) (omega arith)

bit_xor_self_below : (n a : ℕ) → a ≤ n → bit_xor a a ≡ 0
bit_xor_self_below zero zero ha = refl
bit_xor_self_below zero (suc a) ha = absurd (omega arith)
bit_xor_self_below (suc n) a ha =
    omega (arith, bit_xor_digit a a, bit_xor_self_below n (a / 2) (omega arith))

pub bit_xor_self : (a : ℕ) → bit_xor a a ≡ 0
bit_xor_self a = bit_xor_self_below a a (omega arith)

pub mul-pow-suc : (q k : ℕ) → q * 2 ^ suc k ≡ 2 * (q * 2 ^ k)
mul-pow-suc q k = omega (arith, ap (λ (t : ℕ). q * t) (pow-suc 2 k))

-- The result of `^` is as short as its arguments.
pub bit_xor-lt-pow : (k a b : ℕ) → a < 2 ^ k → b < 2 ^ k → bit_xor a b < 2 ^ k
bit_xor-lt-pow zero zero zero ha hb = omega (arith, zero-bit_xor 0)
bit_xor-lt-pow zero zero (suc b) ha hb = absurd (omega arith)
bit_xor-lt-pow zero (suc a) b ha hb = absurd (omega arith)
bit_xor-lt-pow (suc k) a b ha hb = omega (
  arith,
  pow-suc 2 k,
  bit_xor_digit a b,
  bit_xor-lt-pow k (a / 2) (b / 2) (omega (arith, pow-suc 2 k)) (omega (arith, pow-suc 2 k)),
)

pub two_pow-pos : (k : ℕ) → 0 < 2 ^ k
two_pow-pos k = one-le-pow k 2 (omega arith)

-- A quotient and a remainder are determined by their equation.
pub mod_unique : (q r a m : ℕ) → r < m → a ≡ q * m + r → a % m ≡ r
mod_unique q r a m h e = grind arith

pub div_unique : (q r a m : ℕ) → r < m → a ≡ q * m + r → a / m ≡ q
div_unique q r a m h e = grind arith

-- The remainder by a doubled modulus, from that of the half.
mod-double : (a k : ℕ) → a % 2 ^ suc k ≡ a / 2 % 2 ^ k * 2 + a % 2
mod-double a k =
    mod_unique (a / 2 / 2 ^ k) _ a (2 ^ suc k)
      (omega (arith, pow-suc 2 k, mod-lt (a / 2) (two_pow-pos k)))
      (omega (arith, mul-pow-suc (a / 2 / 2 ^ k) k, div-add-mod' (a / 2) (2 ^ k)))

-- `^` works on the fields above and below bit `k` apart.
pub bit_xor_fields :
    (k p q r s : ℕ)
    → r < 2 ^ k
    → s < 2 ^ k
    → bit_xor (p * 2 ^ k + r) (q * 2 ^ k + s) ≡ bit_xor p q * 2 ^ k + bit_xor r s
bit_xor_fields zero p q zero zero hr hs = simp (zero-bit_xor, mul-one, add-zero)
bit_xor_fields zero p q zero (suc s) hr hs = absurd (omega arith)
bit_xor_fields zero p q (suc r) s hr hs = absurd (omega arith)
bit_xor_fields (suc k) p q r s hr hs = ground (
  arith,
  pow-suc 2 k,
  mul-pow-suc p k,
  mul-pow-suc q k,
  mul-pow-suc (bit_xor p q) k,
  bit_xor_digit (p * 2 ^ suc k + r) (q * 2 ^ suc k + s),
  bit_xor_digit r s,
  bit_xor_fields k p q (r / 2) (s / 2) (omega (arith, pow-suc 2 k)) (omega (arith, pow-suc 2 k)),
)

-- `r | (q << k)` is a sum when `r` fits in `k` bits.
pub bit_or-shifted : (k q r : ℕ) → r < 2 ^ k → bit_or r (q * 2 ^ k) ≡ r + q * 2 ^ k
bit_or-shifted zero q zero h = omega (arith, bit_or-bitwise 0 (q * 1))
bit_or-shifted zero q (suc r) h = absurd (omega arith)
bit_or-shifted (suc k) q r h = ground (
  arith,
  pow-suc 2 k,
  mul-pow-suc q k,
  bit_or_digit r (q * 2 ^ suc k),
  bit_or-shifted k q (r / 2) (omega (arith, pow-suc 2 k)),
)

pub bit_and_digit : (a b : ℕ) → bit_and a b ≡ bit_and (a / 2) (b / 2) * 2 + min (a % 2) (b % 2)
bit_and_digit zero b = omega (arith, bit_and-bitwise 0 b, bit_and-bitwise 0 (b / 2))
bit_and_digit (suc a) b = omega (
  arith,
  bit_and-bitwise (suc a) b,
  bit_and-bitwise (suc a / 2) (b / 2),
  bitwise-lowest (λ y. 0) min a b,
)

bit_and-zero_below : (n a : ℕ) → a ≤ n → bit_and a 0 ≡ 0
bit_and-zero_below zero zero h = refl
bit_and-zero_below zero (suc a) h = absurd (omega arith)
bit_and-zero_below (suc n) a h =
    omega (arith, bit_and_digit a 0, bit_and-zero_below n (a / 2) (omega arith))

-- `a & (1<<k - 1)` is the remainder by `2 ^ k`.
pub bit_and-mask : (k a m : ℕ) → m + 1 ≡ 2 ^ k → bit_and a m ≡ a % 2 ^ k
bit_and-mask zero a zero h = omega (arith, bit_and-zero_below a a (omega arith))
bit_and-mask zero a (suc m) h = absurd (omega arith)
bit_and-mask (suc k) a m h = omega (
  arith,
  two_pow-pos k,
  mod-double a k,
  pow-suc 2 k,
  bit_and_digit a m,
  bit_and-mask k (a / 2) (m / 2) (omega (arith, pow-suc 2 k, two_pow-pos k)),
)

-- The top bit of a byte, by a run through all bytes.
abbrev top_bit : ℕ → ℕ
top_bit x = if ltb x 128 then 0 else 128

top_bits_hold : (bytes : ℕ) → Bool
top_bits_hold zero = true
top_bits_hold (suc x) = (bit_and x 0x80 == top_bit x) && top_bits_hold x

top_bits_hold-lt :
    (bytes x : ℕ) → x < bytes → top_bits_hold bytes ≡ true → bit_and x 0x80 ≡ top_bit x
unfolding top_bits_hold
top_bits_hold-lt zero x lt h = absurd (omega arith)
top_bits_hold-lt (suc y) x lt h = elim (dec_lt x y) [
  | yes below ↦ top_bits_hold-lt y x below (ground arith)
  | no top ↦
      let last : bit_and y 0x80 ≡ top_bit y = ground arith in
      let here : y ≡ x = omega arith in rw here at last
]

table : top_bits_hold 256 ≡ true
unfolding top_bits_hold
table = refl

pub bit_and-top_bit : (x : ℕ) → x < 256 → bit_and x 0x80 ≡ (if ltb x 128 then 0 else 128)
bit_and-top_bit x h = top_bits_hold-lt 256 x h table
