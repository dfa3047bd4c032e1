-- ===== src/Coinbase/Witness.antt =====
-- pkg/coinbase/builder.go: AddWitnessData.
use forgenx_engine.Prelude.{
  ℕ, ◌<◌, ◌≤◌, ◌-◌, ◌+◌, ◌≡◌, List, ◌∷◌, ◌++◌, length, length-append, length-take, length-drop,
  take, drop, take-append-drop, drop-drop, arith, lt→ltb, ltb, false, dec_lt, ◌⊎◌, inl, inr, ap,
  sym, ◌∙◌,
}
use forgenx_engine.Prelude.Bytes.{zeros, slice}
use forgenx_engine.Coinbase.Builder.{add_witness_data}

-- A transaction cut into its version, its inputs and outputs, and its locktime.
pub record Parts (cb : List ℕ) : Type 0 where
  pub version : List ℕ
  pub body : List ℕ
  pub locktime : List ℕ
  pub whole : cb ≡ version ++ (body ++ locktime)
  pub version_length : length version ≡ 4
  pub locktime_length : length locktime ≡ 4

-- One stack element of 32 zero bytes.
pub witness_stack : List ℕ
witness_stack = 0x01 ∷ 0x20 ∷ zeros 32

rejoin : (cb : List ℕ) (n : ℕ) → 4 ≤ n → cb ≡ take 4 cb ++ (take (n - 4) (drop 4 cb) ++ drop n cb)
rejoin cb n h =
    let tail : drop n cb ≡ drop (n - 4) (drop 4 cb) =
      ap (λ k. drop k cb) (omega arith) ∙ sym (drop-drop (n - 4) 4 cb) in
    rw (tail, take-append-drop (n - 4) (drop 4 cb), take-append-drop 4 cb)

parts_of : (cb : List ℕ) → 10 ≤ length cb → Parts cb
parts_of cb h = record {
  version = slice cb 0 4;
  body = slice cb 4 (length cb - 4);
  locktime = drop (length cb - 4) cb;
  whole = rejoin cb (length cb - 4) (omega arith);
  version_length = omega (arith, length-take 4 cb);
  locktime_length = omega (arith, length-drop (length cb - 4) cb);
}

length-Parts : {cb : List ℕ} (p : Parts cb) → length cb ≡ 4 + (length p.body + 4)
length-Parts p = omega (
  arith,
  ap length p.whole,
  length-append p.version (p.body ++ p.locktime),
  length-append p.body p.locktime,
  p.version_length,
  p.locktime_length,
)

with_witness : {cb : List ℕ} → Parts cb → List ℕ
with_witness p = p.version ++ (0x00 ∷ 0x01 ∷ (p.body ++ (witness_stack ++ p.locktime)))

length-with_witness : {cb : List ℕ} (p : Parts cb) → length (with_witness p) ≡ length cb + 36
unfolding with_witness witness_stack
length-with_witness p = omega (
  arith,
  length-Parts p,
  length-append p.version (0x00 ∷ 0x01 ∷ (p.body ++ (0x01 ∷ 0x20 ∷ (zeros 32 ++ p.locktime)))),
  length-append p.body (0x01 ∷ 0x20 ∷ (zeros 32 ++ p.locktime)),
  p.version_length,
  p.locktime_length,
)

add_witness_data-short : (cb : List ℕ) → length cb < 10 → add_witness_data cb ≡ cb
unfolding add_witness_data
add_witness_data-short cb short = rw (lt→ltb _ _ short)

add_witness_data-long :
    (cb : List ℕ) (h : 10 ≤ length cb) → add_witness_data cb ≡ with_witness (parts_of cb h)
unfolding add_witness_data with_witness parts_of witness_stack
add_witness_data-long cb h = let e : ltb (length cb) 10 ≡ false = ground arith in rw e

-- A transaction of fewer than ten bytes is returned as it is. One of ten or more is its version, its
-- inputs and outputs, and its locktime: add_witness_data puts marker and flag behind the version
-- and one 32-byte zero witness before the locktime, keeps the rest, and so adds 36 bytes.
pub add_witness_data_lem :
    (cb : List ℕ)
    → ((length cb < 10) × (add_witness_data cb ≡ cb))
      ⊎ ((10 ≤ length cb)
          × (p : Parts cb) × (add_witness_data cb
              ≡ p.version ++ (0x00 ∷ 0x01 ∷ (p.body ++ (witness_stack ++ p.locktime))))
          × (length (add_witness_data cb) ≡ length cb + 36))
add_witness_data_lem cb = elim (dec_lt (length cb) 10) [
  | yes short ↦ inl (short, add_witness_data-short cb short)
  | no long ↦
      let p : Parts cb = parts_of cb (omega arith) in
      let e : add_witness_data cb ≡ with_witness p = add_witness_data-long cb (omega arith) in
      inr (omega arith, p, unfold with_witness in e, rw e (length-with_witness p))
]
