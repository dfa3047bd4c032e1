-- ===== src/Coinbase/Script.antt =====
-- pkg/coinbase/script.go: opcodes, output scripts, integers as Bitcoin serialises them, and the
-- hashes. A Go `[]byte` is the list of its bytes.
use forgenx_engine.Prelude.{
  ℕ, zero, suc, ◌-◌, List, [], ◌∷◌, ◌++◌, Bool, true, false, bit_and, ltb, leb, ◌==◌, if◌then◌else◌,
  length, get_or,
}
use forgenx_engine.Prelude.Bytes.{u8, ◌>>>◌, le16, le32, le64}
use forgenx_engine.Prelude.Int.{ℤ, pos, negsuc}

abbrev pub op_dup : ℕ
op_dup = 0x76

abbrev pub op_hash160 : ℕ
op_hash160 = 0xa9

abbrev pub op_equal_verify : ℕ
op_equal_verify = 0x88

abbrev pub op_check_sig : ℕ
op_check_sig = 0xac

abbrev pub op_equal : ℕ
op_equal = 0x87

abbrev pub op_return : ℕ
op_return = 0x6a

abbrev pub op_0 : ℕ
op_0 = 0x00

unfoldable pub p2pkh_script : List ℕ → List ℕ
p2pkh_script pub_key_hash =
    op_dup ∷ op_hash160 ∷ 0x14 ∷ (pub_key_hash ++ op_equal_verify ∷ op_check_sig ∷ [])

unfoldable pub p2sh_script : List ℕ → List ℕ
p2sh_script script_hash = op_hash160 ∷ 0x14 ∷ (script_hash ++ op_equal ∷ [])

unfoldable pub p2wpkh_script : List ℕ → List ℕ
p2wpkh_script pub_key_hash = op_0 ∷ 0x14 ∷ pub_key_hash

unfoldable pub p2wsh_script : List ℕ → List ℕ
p2wsh_script script_hash = op_0 ∷ 0x20 ∷ script_hash

unfoldable pub op_return_script : List ℕ → List ℕ
op_return_script payload =
    op_return
    ∷ ((if leb (length payload) 75
          then u8 (length payload) ∷ []
          else 0x4c ∷ u8 (length payload) ∷ [])
        ++ payload)

-- The argument is a uint64.
unfoldable pub serialize_var_int : ℕ → List ℕ
serialize_var_int n =
    if ltb n 0xfd
    then u8 n ∷ []
    else if leb n 0xffff
    then 0xfd ∷ le16 n
    else if leb n 0xffff_ffff
    then 0xfe ∷ le32 n
    else 0xff ∷ le64 n

-- The loop `for h > 0`, on fuel: `buf = append(buf, byte(h & 0xFF)); h >>= 8`.
unfoldable pub height_bytes : ℕ → ℕ → List ℕ → List ℕ
height_bytes zero h buf = buf
height_bytes (suc fuel) h buf =
    let rest = height_bytes fuel (h >>> 8) (buf ++ u8 (bit_and h 0xff) ∷ []) in
    if ltb 0 h then rest else buf

-- `buf[len(buf)-1] & 0x80 != 0`, of a list that is not empty.
unfoldable pub high_bit_set : List ℕ → Bool
high_bit_set buf = if bit_and (get_or buf (length buf - 1) 0) 0x80 == 0 then false else true

-- An int64 has at most eight bytes, so eight rounds are enough.
serialize_positive : ℕ → List ℕ
serialize_positive h =
    let raw = height_bytes 8 h [] in
    let buf = if high_bit_set raw then raw ++ 0x00 ∷ [] else raw in u8 (length buf) ∷ buf

unfoldable pub serialize_height : ℤ → List ℕ
unfolding serialize_positive
serialize_height (negsuc n) = 0x01 ∷ 0x00 ∷ []
serialize_height (pos h) = if h == 0 then 0x01 ∷ 0x00 ∷ [] else serialize_positive h

unfoldable pub put_uint32_le : ℕ → List ℕ
put_uint32_le v = le32 v

unfoldable pub put_uint64_le : ℕ → List ℕ
put_uint64_le v = le64 v

-- The loop of `ReverseBytes` fills `reversed[len(b)-1-i]` with `b[i]`.
unfoldable pub reverse_bytes : List ℕ → List ℕ
reverse_bytes [] = []
reverse_bytes (v ∷ b) = reverse_bytes b ++ v ∷ []

-- The hash functions are the standard library's and golang.org/x/crypto's: parameters.
unfoldable pub double_sha256 : (List ℕ → List ℕ) → List ℕ → List ℕ
double_sha256 sha256 payload = sha256 (sha256 payload)

unfoldable pub hash160 : (sha256 ripemd160 : List ℕ → List ℕ) → List ℕ → List ℕ
hash160 sha256 ripemd160 payload = ripemd160 (sha256 payload)
