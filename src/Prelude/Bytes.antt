-- ===== src/Prelude/Bytes.antt =====
-- Bytes and byte buffers, as Go's slices of uint8: truncating conversions, little-endian fields,
-- and `copy` into a buffer.
use native.Mathlib.Nat.{zero-add, suc-add}
use forgenx_engine.Prelude.{
  ℕ, zero, suc, ◌+◌, ◌*◌, ◌/◌, ◌%◌, ◌^◌, ◌<◌, ◌≡◌, refl, sym, ap, ◌∙◌, ◌-◌, List, [], ◌∷◌, ◌++◌,
  arith, length, replicate, get_or, take, drop, append_assoc,
}

-- `byte(n)`, `uint16(n)`, `uint32(n)`, `uint64(n)`.
abbrev pub u8 : ℕ → ℕ
u8 n = n % 2 ^ 8

abbrev pub u16 : ℕ → ℕ
u16 n = n % 2 ^ 16

abbrev pub u32 : ℕ → ℕ
u32 n = n % 2 ^ 32

abbrev pub u64 : ℕ → ℕ
u64 n = n % 2 ^ 64

infixl 75 ◌>>>◌
abbrev pub ◌>>>◌ : ℕ → ℕ → ℕ
n >>> k = n / 2 ^ k

abbrev pub IsByte : ℕ → Type 0
IsByte b = b < 2 ^ 8

abbrev pub All {ℓ κ} : {A : Type ℓ} → (A → Type κ) → List A → Type κ
All P [] = Unit
All P (x ∷ xs) = P x × All P xs

abbrev pub IsBytes : List ℕ → Type 0
IsBytes = All IsByte

-- `encoding/binary`'s little-endian fields.
abbrev pub le16 : ℕ → List ℕ
le16 v = u8 v ∷ u8 (v >>> 8) ∷ []

abbrev pub le24 : ℕ → List ℕ
le24 v = u8 v ∷ u8 (v >>> 8) ∷ u8 (v >>> 16) ∷ []

abbrev pub le32 : ℕ → List ℕ
le32 v = u8 v ∷ u8 (v >>> 8) ∷ u8 (v >>> 16) ∷ u8 (v >>> 24) ∷ []

abbrev pub le64 : ℕ → List ℕ
le64 v =
    u8 v
    ∷ u8 (v >>> 8)
    ∷ u8 (v >>> 16)
    ∷ u8 (v >>> 24)
    ∷ u8 (v >>> 32)
    ∷ u8 (v >>> 40)
    ∷ u8 (v >>> 48)
    ∷ u8 (v >>> 56)
    ∷ []

-- The number that little-endian bytes stand for.
abbrev pub from_le : List ℕ → ℕ
from_le [] = 0
from_le (b ∷ bs) = b + 256 * from_le bs

-- `b[i]`; every caller stays in range.
abbrev pub byte_at : List ℕ → ℕ → ℕ
byte_at b i = get_or b i 0

-- `make([]byte, n)`.
abbrev pub zeros : ℕ → List ℕ
zeros n = replicate n 0

-- `copy(b[off:], src)`: what does not fit in `b` is dropped.
unfoldable pub copy_at : List ℕ → ℕ → List ℕ → List ℕ
copy_at [] off src = []
copy_at (x ∷ b) zero [] = x ∷ b
copy_at (x ∷ b) zero (s ∷ src) = s ∷ copy_at b zero src
copy_at (x ∷ b) (suc off) src = x ∷ copy_at b off src

-- `b[from:to]`.
abbrev pub slice : List ℕ → ℕ → ℕ → List ℕ
slice b from to = take (to - from) (drop from b)

module _ {ℓ} {A : Type ℓ} where
  pub take-length_append : (xs ys : List A) → take (length xs) (xs ++ ys) ≡ xs
  take-length_append [] ys = refl
  take-length_append (x ∷ xs) ys = ap (λ l. x ∷ l) (take-length_append xs ys)

  pub drop-length_append : (xs ys : List A) → drop (length xs) (xs ++ ys) ≡ ys
  drop-length_append [] ys = refl
  drop-length_append (x ∷ xs) ys = drop-length_append xs ys

-- `b[off : off+n]` where the field `f` of length `n` stands at `off`.
pub slice-field :
    (pre f rest : List ℕ) (off n : ℕ)
    → off ≡ length pre
    → n ≡ length f
    → take n (drop off (pre ++ (f ++ rest))) ≡ f
slice-field pre f rest off n p q =
    rw (p, q, drop-length_append pre (f ++ rest)) (take-length_append f rest)

copy_at-append :
    (pre buf src : List ℕ) → copy_at (pre ++ buf) (length pre) src ≡ pre ++ copy_at buf 0 src
unfolding copy_at
copy_at-append [] [] src = refl
copy_at-append [] (x ∷ buf) src = refl
copy_at-append (x ∷ pre) buf src = ap (λ l. x ∷ l) (copy_at-append pre buf src)

copy_at-nil : (b : List ℕ) → copy_at b 0 [] ≡ b
unfolding copy_at
copy_at-nil [] = refl
copy_at-nil (x ∷ b) = refl

copy_at-zeros : (src : List ℕ) (n : ℕ) → copy_at (zeros (length src + n)) 0 src ≡ src ++ zeros n
unfolding copy_at
copy_at-zeros [] n = rw zero-add (copy_at-nil (zeros n))
copy_at-zeros (x ∷ src) n = rw suc-add (ap (λ l. x ∷ l) (copy_at-zeros src n))

-- Writing a field right behind what is already written.
pub copy_at-field :
    (pre src : List ℕ) (off m n : ℕ)
    → off ≡ length pre
    → m ≡ length src + n
    → copy_at (pre ++ zeros m) off src ≡ (pre ++ src) ++ zeros n
copy_at-field pre src off m n p q =
    rw (p, q, copy_at-append pre (zeros (length src + n)) src, copy_at-zeros src n)
      (sym (append_assoc pre src (zeros n)))

pub from_le-le16 : (v : ℕ) → v < 2 ^ 16 → from_le (le16 v) ≡ v
from_le-le16 v h = omega arith

pub from_le-le24 : (v : ℕ) → v < 2 ^ 24 → from_le (le24 v) ≡ v
from_le-le24 v h = omega arith

pub from_le-le32 : (v : ℕ) → v < 2 ^ 32 → from_le (le32 v) ≡ v
from_le-le32 v h = omega arith

pub from_le-le64 : (v : ℕ) → v < 2 ^ 64 → from_le (le64 v) ≡ v
from_le-le64 v h = omega arith

-- `binary.LittleEndian.Uint16(b[off:])` and its wider forms; every caller stays in range.
unfoldable pub get_u16_le : List ℕ → ℕ → ℕ
get_u16_le b off = from_le (take 2 (drop off b))

unfoldable pub get_u32_le : List ℕ → ℕ → ℕ
get_u32_le b off = from_le (take 4 (drop off b))

pub get_u16_le-field :
    (pre : List ℕ) (v : ℕ) (rest : List ℕ) (off : ℕ)
    → off ≡ length pre
    → v < 2 ^ 16
    → get_u16_le (pre ++ (le16 v ++ rest)) off ≡ v
unfolding get_u16_le
get_u16_le-field pre v rest off p h =
    ap from_le (slice-field pre (le16 v) rest off 2 p refl) ∙ from_le-le16 v h

pub get_u32_le-field :
    (pre : List ℕ) (v : ℕ) (rest : List ℕ) (off : ℕ)
    → off ≡ length pre
    → v < 2 ^ 32
    → get_u32_le (pre ++ (le32 v ++ rest)) off ≡ v
unfolding get_u32_le
get_u32_le-field pre v rest off p h =
    ap from_le (slice-field pre (le32 v) rest off 4 p refl) ∙ from_le-le32 v h

pub IsBytes-append : (xs ys : List ℕ) → IsBytes xs → IsBytes ys → IsBytes (xs ++ ys)
IsBytes-append [] ys h k = k
IsBytes-append (x ∷ xs) ys h k = (h.0, IsBytes-append xs ys h.1 k)
