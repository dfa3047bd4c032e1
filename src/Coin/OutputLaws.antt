-- ===== src/Coin/OutputLaws.antt =====
-- pkg/coin: the outputs of BuildCoinbase, of the SegWit and generic coins.
use forgenx_engine.Prelude.{
  ℕ, ◌+◌, ◌%◌, ◌^◌, ◌≡◌, ◌<◌, >>=_ok, Bool, false, List, [], ◌∷◌, ◌++◌, ap, sym, arith, Result, ok,
  Option, none, some,
}
use forgenx_engine.Prelude.Int.{ℤ, pos, ◌-ℤ◌}
use forgenx_engine.Prelude.Hex.{hex_decode}
use forgenx_engine.Coinbase.Builder.{CoinbaseOutput, uint64_of, build_coinbase_parts}
use forgenx_engine.Coin.Errors.{CoinError}
use forgenx_engine.Coin.Template.{BlockTemplate}
use forgenx_engine.Coin.Outputs.{
  int64_of, int64_sub, less_extra_outputs, plain_outputs, commitment_output, commitment_outputs,
  segwit_outputs, build_segwit_coinbase, build_plain_coinbase,
}

-- The sum of the values, as numbers of 64 bits.
unfoldable pub total : List CoinbaseOutput → ℕ
total [] = 0
total (out ∷ outputs) = (uint64_of out.value + total outputs) % 2 ^ 64

uint64_of-int64_of : (n : ℕ) → n < 2 ^ 64 → uint64_of (int64_of n) ≡ n
uint64_of-int64_of n h = ground arith

pub uint64_of-bound : (a : ℤ) → uint64_of a < 2 ^ 64
uint64_of-bound a = ground arith

sub_add : (a b : ℤ) → (uint64_of (a -ℤ b) + uint64_of b) % 2 ^ 64 ≡ uint64_of a
unfolding ◌-ℤ◌
sub_add a b = ground arith

pub int64_sub_add : (a b : ℤ) → (uint64_of (int64_sub a b) + uint64_of b) % 2 ^ 64 ≡ uint64_of a
unfolding int64_sub
int64_sub_add a b =
    rw (uint64_of-int64_of (uint64_of (a -ℤ b)) (uint64_of-bound (a -ℤ b))) (sub_add a b)

pub total-bound : (outputs : List CoinbaseOutput) → total outputs < 2 ^ 64
unfolding total
total-bound [] = omega arith
total-bound (out ∷ outputs) = omega arith

pub less_extra_outputs-total :
    (v : ℤ) (extra : List CoinbaseOutput)
    → (uint64_of (less_extra_outputs v extra) + total extra) % 2 ^ 64 ≡ uint64_of v
unfolding less_extra_outputs total
less_extra_outputs-total v [] = omega (arith, uint64_of-bound v)
less_extra_outputs-total v (eo ∷ extra) =
    omega (arith, less_extra_outputs-total (int64_sub v eo.value) extra, int64_sub_add v eo.value)

pub total-append : (xs ys : List CoinbaseOutput) → total (xs ++ ys) ≡ (total xs + total ys) % 2 ^ 64
unfolding total
total-append [] ys = omega (arith, total-bound ys)
total-append (x ∷ xs) ys = omega (arith, total-append xs ys)

total-plain_outputs :
    (template : BlockTemplate) (script : List ℕ) (extra : List CoinbaseOutput)
    → total (plain_outputs template script extra) ≡ uint64_of template.coinbase_value
unfolding plain_outputs total
total-plain_outputs template script extra = less_extra_outputs-total template.coinbase_value extra

commitment_output-total :
    (decoded : Option (List ℕ)) (outputs : List CoinbaseOutput)
    → commitment_output decoded ≡ ok outputs
    → total outputs ≡ 0
unfolding commitment_output total
commitment_output-total none outputs h = cc
commitment_output-total (some commitment) outputs h =
    let e : (record { value = pos 0; script = commitment }) ∷ [] ≡ outputs = cc in sym (ap total e)

commitment_outputs-total :
    (commitment_hex : List ℕ) (outputs : List CoinbaseOutput)
    → commitment_outputs commitment_hex ≡ ok outputs
    → total outputs ≡ 0
unfolding commitment_outputs total
commitment_outputs-total [] outputs h = let e : [] ≡ outputs = cc in sym (ap total e)
commitment_outputs-total (c ∷ text) outputs h =
    commitment_output-total (hex_decode (c ∷ text)) outputs h

segwit_outputs-total :
    (template : BlockTemplate) (script : List ℕ) (extra outputs : List CoinbaseOutput)
    → segwit_outputs template script extra ≡ ok outputs
    → total outputs ≡ uint64_of template.coinbase_value
unfolding segwit_outputs
segwit_outputs-total template script extra outputs h =
    let (commitment, c, e) = >>=_ok (commitment_outputs template.default_witness_commitment) _ h in
    let plain = plain_outputs template script extra in
    let whole : plain ++ commitment ≡ outputs = cc in
    omega (
      arith,
      ap total whole,
      total-append plain commitment,
      total-bound plain,
      total-plain_outputs template script extra,
      commitment_outputs-total template.default_witness_commitment commitment c,
    )

-- Whenever the coinbase of a SegWit or generic coin is built, its halves are those of a list of
-- outputs whose values add up to the template's coinbase value, as 64-bit numbers: the pool's
-- output, paid to the script of its address, takes what the extra outputs leave.
pub build_segwit_coinbase-total :
    (template : BlockTemplate) (text : List ℕ) (n1 n2 : ℕ) (extra : List CoinbaseOutput)
    (address_script : Result CoinError (List ℕ)) (segwit : Bool) (halves : List ℕ × List ℕ)
    → build_segwit_coinbase template text n1 n2 extra address_script segwit ≡ ok halves
    → (script : List ℕ) × (outputs : List CoinbaseOutput) × (address_script ≡ ok script)
      × (segwit_outputs template script extra ≡ ok outputs)
      × (build_coinbase_parts template.height text n1 n2 outputs segwit ≡ halves)
      × (total outputs ≡ uint64_of template.coinbase_value)
unfolding build_segwit_coinbase
build_segwit_coinbase-total template text n1 n2 extra address_script segwit halves h =
    let (script, s, h') = >>=_ok address_script _ h in
    let (outputs, o, e) = >>=_ok (segwit_outputs template script extra) _ h' in
    (script, outputs, s, o, cc, segwit_outputs-total template script extra outputs o)

-- The same of Bitcoin Cash: its outputs are the pool's and the extra ones.
pub build_plain_coinbase-total :
    (template : BlockTemplate) (text : List ℕ) (n1 n2 : ℕ) (extra : List CoinbaseOutput)
    (address_script : Result CoinError (List ℕ)) (halves : List ℕ × List ℕ)
    → build_plain_coinbase template text n1 n2 extra address_script ≡ ok halves
    → (script : List ℕ) × (address_script ≡ ok script)
      × (build_coinbase_parts template.height text n1 n2 (plain_outputs template script extra) false
          ≡ halves)
      × (total (plain_outputs template script extra) ≡ uint64_of template.coinbase_value)
unfolding build_plain_coinbase
build_plain_coinbase-total template text n1 n2 extra address_script halves h =
    let (script, s, e) = >>=_ok address_script _ h in
    (script, s, cc, total-plain_outputs template script extra)
