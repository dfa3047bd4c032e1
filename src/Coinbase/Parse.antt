-- ===== src/Coinbase/Parse.antt =====
-- A reader of transactions without witness data, independent of the code that writes them: the
-- specification of the coinbase's layout.
use forgenx_engine.Prelude.{
  ℕ, zero, suc, ◌<◌, ◌^◌, ◌≡◌, refl, List, [], ◌∷◌, ◌++◌, Option, none, some, length,
}
use forgenx_engine.Coinbase.Script.{serialize_var_int}
use forgenx_engine.Coinbase.VarInt.{read_var_int, read_var_int-serialize_var_int}

infixl 5 ◌>>=◌
abbrev pub ◌>>=◌ {ℓ κ} : {A : Type ℓ} {B : Type κ} → Option A → (A → Option B) → Option B
none >>= f = none
some a >>= f = f a

-- The first `n` bytes, and the rest.
unfoldable pub split : ℕ → List ℕ → Option (List ℕ × List ℕ)
split zero bs = some ([], bs)
split (suc n) [] = none
split (suc n) (b ∷ bs) = do (front, rest) ← split n bs; some (b ∷ front, rest)

pub split-append : (xs ys : List ℕ) → split (length xs) (xs ++ ys) ≡ some (xs, ys)
unfolding split
split-append [] ys = refl
split-append (x ∷ xs) ys = rw (split-append xs ys)

-- A counted run of bytes.
unfoldable pub read_script : List ℕ → Option (List ℕ × List ℕ)
read_script bs = let (n, used) = read_var_int bs in do (prefix, rest) ← split used bs; split n rest

pub read_script-serialize :
    (script rest : List ℕ)
    → length script < 2 ^ 64
    → read_script (serialize_var_int (length script) ++ (script ++ rest)) ≡ some (script, rest)
unfolding read_script
read_script-serialize script rest h =
    rw (read_var_int-serialize_var_int (length script) (script ++ rest) h, split-append)
      (split-append script rest)

pub record TxOutput : Type 0 where
  pub amount : List ℕ  -- eight bytes
  pub script : List ℕ

unfoldable pub read_outputs : ℕ → List ℕ → Option (List TxOutput × List ℕ)
read_outputs zero bs = some ([], bs)
read_outputs (suc n) bs = do
  (amount, rest) ← split 8 bs
  (script, rest') ← read_script rest
  (outputs, rest'') ← read_outputs n rest'
  some ((record { amount = amount; script = script }) ∷ outputs, rest'')

-- A transaction with one input.
pub record Tx : Type 0 where
  pub version : List ℕ
  pub input_count : List ℕ
  pub prev_tx : List ℕ
  pub prev_index : List ℕ
  pub script_sig : List ℕ
  pub sequence : List ℕ
  pub outputs : List TxOutput
  pub locktime : List ℕ

unfoldable pub read_output_list : List ℕ → Option (List TxOutput × List ℕ)
read_output_list bs =
    let (n, used) = read_var_int bs in do (prefix, rest) ← split used bs; read_outputs n rest

unfoldable pub read_tx : List ℕ → Option (Tx × List ℕ)
read_tx bs = do
  (version, bs₁) ← split 4 bs
  (input_count, bs₂) ← split 1 bs₁
  (prev_tx, bs₃) ← split 32 bs₂
  (prev_index, bs₄) ← split 4 bs₃
  (script_sig, bs₅) ← read_script bs₄
  (sequence, bs₆) ← split 4 bs₅
  (outputs, bs₇) ← read_output_list bs₆
  (locktime, bs₈) ← split 4 bs₇
  some (
    record {
      version = version;
      input_count = input_count;
      prev_tx = prev_tx;
      prev_index = prev_index;
      script_sig = script_sig;
      sequence = sequence;
      outputs = outputs;
      locktime = locktime;
    },
    bs₈,
  )
