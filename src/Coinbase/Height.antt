-- ===== src/Coinbase/Height.antt =====
-- pkg/coinbase/script.go: SerializeHeight.
use native.Mathlib.Nat.{pow-suc, pow-le-pow_right}
use forgenx_engine.Prelude.{
  Bool-cases, inl, inr, ◌==◌, dec_lt, ℕ, zero, suc, ◌+◌, ◌-◌, ◌*◌, ◌^◌, ◌<◌, ◌≤◌, ◌≡◌, refl, List,
  [], ◌∷◌, ◌++◌, bit_and, ltb, leb, lt→ltb, if◌then◌else◌, length, arith, true, false, get_or,
  append-nil, append_assoc, length-append, ◌∙◌, sym,
}
use forgenx_engine.Prelude.Bytes.{u8, ◌>>>◌, from_le, IsByte, IsBytes, IsBytes-append}
use forgenx_engine.Prelude.Bits.{bit_and-mask, bit_and-top_bit}
use forgenx_engine.Prelude.Int.{ℤ, pos, negsuc}
use forgenx_engine.Coinbase.Script.{height_bytes, high_bit_set, serialize_height}

-- The digits of `h` in base 256: exact, bytes, and with no digit to spare.
record IsDigits (h : ℕ) (bs : List ℕ) : Type 0 where
  value : from_le bs ≡ h
  bytes : IsBytes bs
  fits : h < 256 ^ length bs
  tight : 256 ^ length bs ≤ 256 * h + 1

-- The digits that the loop appends.
digits : ℕ → ℕ → List ℕ
digits zero h = []
digits (suc fuel) h =
    let rest = digits fuel (h >>> 8) in if ltb 0 h then u8 (bit_and h 0xff) ∷ rest else []

height_bytes-eq-append :
    (fuel h : ℕ) (buf : List ℕ) → height_bytes fuel h buf ≡ buf ++ digits fuel h
unfolding height_bytes digits
height_bytes-eq-append zero h buf = sym (append-nil buf)
height_bytes-eq-append (suc fuel) h buf =
    let d : List ℕ = u8 (bit_and h 0xff) ∷ [] in
    ground (
      arith,
      append-nil buf,
      append_assoc buf d (digits fuel (h >>> 8)),
      height_bytes-eq-append fuel (h >>> 8) (buf ++ d),
    )

IsDigits-nil : IsDigits 0 []
IsDigits-nil = record { value = refl; bytes = tt; fits = omega arith; tight = omega arith }

IsDigits-cons :
    (h : ℕ) (bs : List ℕ) → 0 < h → IsDigits (h >>> 8) bs → IsDigits h (u8 (bit_and h 0xff) ∷ bs)
IsDigits-cons h [] h_pos d = record {
  value = omega (arith, d.value, bit_and-mask 8 h 0xff refl);
  bytes = (omega arith, tt);
  fits = omega (arith, d.fits);
  tight = omega arith;
}
IsDigits-cons h (b ∷ bs) h_pos d = record {
  value = omega (arith, d.value, bit_and-mask 8 h 0xff refl);
  bytes = (omega arith, d.bytes);
  fits = omega (arith, d.fits, pow-suc 256 (suc (length bs)));
  tight = omega (arith, d.tight, pow-suc 256 (length bs), pow-suc 256 (suc (length bs)));
}

digits-IsDigits : (fuel h : ℕ) → h < 256 ^ fuel → IsDigits h (digits fuel h)
unfolding digits
digits-IsDigits zero zero lt = IsDigits-nil
digits-IsDigits zero (suc h) lt = absurd (omega arith)
digits-IsDigits (suc fuel) zero lt = IsDigits-nil
digits-IsDigits (suc fuel) (suc h) lt = rw (lt→ltb 0 (suc h) (omega arith)) (
    IsDigits-cons (suc h) (digits fuel (suc h >>> 8)) (omega arith)
      (digits-IsDigits fuel (suc h >>> 8) (omega (arith, pow-suc 256 fuel))))

-- The last byte of a list that is not empty.
last : ℕ → List ℕ → ℕ
last b [] = b
last b (c ∷ bs) = last c bs

get_or-length : (b : ℕ) (bs : List ℕ) → get_or (b ∷ bs) (length bs) 0 ≡ last b bs
unfolding last
get_or-length b [] = refl
get_or-length b (c ∷ bs) = get_or-length c bs

last-IsByte : (b : ℕ) (bs : List ℕ) → IsBytes (b ∷ bs) → IsByte (last b bs)
unfolding last
last-IsByte b [] h = h.0
last-IsByte b (c ∷ bs) h = last-IsByte c bs h.1

-- The last byte says on which side of half its range a little-endian number lies.
last-low :
    (b : ℕ) (bs : List ℕ)
    → IsBytes (b ∷ bs)
    → last b bs < 128
    → 2 * from_le (b ∷ bs) < 256 ^ length (b ∷ bs)
unfolding last
last-low b [] h lt = omega arith
last-low b (c ∷ bs) h lt =
    omega (arith, last-low c bs h.1 lt, pow-suc 256 (length bs), pow-suc 256 (suc (length bs)))

last-high :
    (b : ℕ) (bs : List ℕ)
    → IsBytes (b ∷ bs)
    → 128 ≤ last b bs
    → 256 ^ length (b ∷ bs) ≤ 2 * from_le (b ∷ bs)
unfolding last
last-high b [] h le = omega arith
last-high b (c ∷ bs) h le = omega (arith, last-high c bs h.1 le, pow-suc 256 (suc (length bs)))

high_bit_set-last :
    (b : ℕ) (bs : List ℕ) → IsBytes (b ∷ bs) → high_bit_set (b ∷ bs) ≡ leb 128 (last b bs)
unfolding high_bit_set
high_bit_set-last b bs h =
    let e : suc (length bs) - 1 ≡ length bs = omega arith in
    rw (e, get_or-length b bs, bit_and-top_bit (last b bs) (last-IsByte b bs h)) (ground arith)

from_le-append_zero : (bs : List ℕ) → from_le (bs ++ 0 ∷ []) ≡ from_le bs
from_le-append_zero [] = refl
from_le-append_zero (b ∷ bs) = omega (arith, from_le-append_zero bs)

-- What the length byte is followed by: the digits, with a zero behind them if they end in a high bit.
script_number : List ℕ → List ℕ
script_number raw = if high_bit_set raw then raw ++ 0x00 ∷ [] else raw

-- The number `h` as a script number: exact, its sign bit clear, and in as few bytes as that takes.
pub record IsScriptNumber (h : ℕ) (bs : List ℕ) : Type 0 where
  pub value : from_le bs ≡ h
  pub bytes : IsBytes bs
  pub positive : 2 * h < 256 ^ length bs
  pub minimal : 256 ^ length bs ≤ 512 * h
  pub short : length bs ≤ 8

eight_bytes : (n h : ℕ) → 256 ^ n ≤ 512 * h → h < 2 ^ 63 → n ≤ 8
eight_bytes n h le lt = elim (dec_lt 8 n) [
  | yes long ↦ absurd (omega (arith, pow-le-pow_right {n = 256} (omega arith) {i = 9} {j = n} long))
  | no short ↦ omega arith
]

IsScriptNumber-low :
    (h b : ℕ) (bs : List ℕ)
    → h < 2 ^ 63
    → IsDigits h (b ∷ bs)
    → last b bs < 128
    → IsScriptNumber h (b ∷ bs)
IsScriptNumber-low h b bs lt d low = record {
  value = d.value;
  bytes = d.bytes;
  positive = omega (arith, last-low b bs d.bytes low, d.value);
  minimal = omega (arith, d.tight, pow-suc 256 (length bs));
  short = eight_bytes _ h (omega (arith, d.tight, pow-suc 256 (length bs))) lt;
}

IsScriptNumber-high :
    (h b : ℕ) (bs : List ℕ)
    → h < 2 ^ 63
    → IsDigits h (b ∷ bs)
    → 128 ≤ last b bs
    → IsScriptNumber h ((b ∷ bs) ++ 0 ∷ [])
IsScriptNumber-high h b bs lt d high = record {
  value = from_le-append_zero (b ∷ bs) ∙ d.value;
  bytes = IsBytes-append (b ∷ bs) (0 ∷ []) d.bytes (omega arith, tt);
  positive = rw longer (omega (arith, d.fits, pow-suc 256 (suc (length bs))));
  minimal = rw longer least;
  short = eight_bytes _ h (rw longer least) lt;
}
  where
    longer : length ((b ∷ bs) ++ 0 ∷ []) ≡ suc (suc (length bs))
    longer = omega (arith, length-append bs (0 ∷ []))

    least : 256 ^ suc (suc (length bs)) ≤ 512 * h
    least = omega (arith, last-high b bs d.bytes high, d.value, pow-suc 256 (suc (length bs)))

script_number-IsScriptNumber :
    (h : ℕ) (raw : List ℕ)
    → 0 < h
    → h < 2 ^ 63
    → IsDigits h raw
    → IsScriptNumber h (script_number raw)
unfolding script_number
script_number-IsScriptNumber h [] h_pos lt d = absurd (omega (arith, d.fits))
script_number-IsScriptNumber h (b ∷ bs) h_pos lt d = elim (dec_lt (last b bs) 128) [
  | yes low ↦ rw (set, leb-false low) (IsScriptNumber-low h b bs lt d low)
  | no high ↦ rw (set, leb-true (omega arith)) (IsScriptNumber-high h b bs lt d (omega arith))
]
  where
    set : high_bit_set (b ∷ bs) ≡ leb 128 (last b bs)
    set = high_bit_set-last b bs d.bytes

    leb-false : last b bs < 128 → leb 128 (last b bs) ≡ false
    leb-false lt' = ground arith

    leb-true : 128 ≤ last b bs → leb 128 (last b bs) ≡ true
    leb-true le = ground arith

-- Every positive int64 height is written as a length byte and that many bytes, which are the
-- height as a script number: exact, with the sign bit clear, and as short as that can be.
pub serialize_height-IsScriptNumber :
    (h : ℕ)
    → 0 < h
    → h < 2 ^ 63
    → (bs : List ℕ) × (serialize_height (pos h) ≡ length bs ∷ bs) × IsScriptNumber h bs
unfolding serialize_height script_number
serialize_height-IsScriptNumber h h_pos lt =
    let n : IsScriptNumber h (script_number (digits 8 h)) =
      script_number-IsScriptNumber h (digits 8 h) h_pos lt (digits-IsDigits 8 h (omega arith)) in
    (script_number (digits 8 h), rw height_bytes-eq-append (ground (arith, n.short)), n)

height_bytes-IsBytes : (fuel h : ℕ) (buf : List ℕ) → IsBytes buf → IsBytes (height_bytes fuel h buf)
unfolding height_bytes
height_bytes-IsBytes zero h buf k = k
height_bytes-IsBytes (suc fuel) h buf k =
    let d : List ℕ = u8 (bit_and h 0xff) ∷ [] in
    let more : IsBytes (height_bytes fuel (h >>> 8) (buf ++ d)) =
      height_bytes-IsBytes fuel (h >>> 8) (buf ++ d) (IsBytes-append buf d k (omega arith, tt)) in
    elim (Bool-cases (ltb 0 h)) [ inl e ↦ rw e more | inr e ↦ rw e k ]

script_number-IsBytes : (raw : List ℕ) → IsBytes raw → IsBytes (script_number raw)
unfolding script_number
script_number-IsBytes raw k = elim (Bool-cases (high_bit_set raw)) [
  | inl e ↦ rw e (IsBytes-append raw (0 ∷ []) k (omega arith, tt))
  | inr e ↦ rw e k
]

-- Whatever the height, bytes are written.
pub serialize_height-IsBytes : (height : ℤ) → IsBytes (serialize_height height)
unfolding serialize_height script_number
serialize_height-IsBytes (negsuc n) = omega arith
serialize_height-IsBytes (pos h) = elim (Bool-cases (h == 0)) [
  | inl e ↦ rw e (omega arith)
  | inr e ↦ rw e (omega arith, script_number-IsBytes _ (height_bytes-IsBytes 8 h [] tt))
]
