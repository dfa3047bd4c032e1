-- ===== src/Engine/ShareTests.antt =====
-- A share of the job of a small manager, and a block made of it.
use forgenx_engine.Prelude.{
  ℕ, ◌+◌, ◌*◌, ◌^◌, ◌≡◌, refl, ap, ◌∙◌, List, [], ◌∷◌, ◌++◌, Bool, true, false, Option, none, some,
  Result, ok, err, if◌then◌else◌, length, replicate, ◌⊎◌, inl, inr, arith,
}
use forgenx_engine.Prelude.Int.{pos}
use forgenx_engine.Prelude.Bytes.{zeros, le32}
use forgenx_engine.Prelude.Hex.{hex_encode}
use forgenx_engine.Prelude.Samples.{whole_floats}
use forgenx_engine.Coinbase.Script.{double_sha256, reverse_bytes}
use forgenx_engine.Coinbase.Merkle.{to_hash}
use forgenx_engine.Coin.Errors.{CoinError}
use forgenx_engine.Sv2.Pow.{build_header, compute_merkle_root}
use forgenx_engine.Engine.Words.{swap_endian_words}
use forgenx_engine.Engine.Jobs.{Job, JobData, JobManager}
use forgenx_engine.Engine.JobTests.{first_byte, plain_coin, template, manager}
use forgenx_engine.Engine.Shares.{
  ShareSubmission, ShareSession, Graces, Accepted, accepted_share, Refusal, unknown_job,
  low_difficulty, meets_difficulty, answer_of, final_version, fold_branches_hex, construct_header,
  check_share,
}
use forgenx_engine.Engine.Shares.CheckLaws.{IsHeader}
use forgenx_engine.Engine.Shares.RefusalLaws.{
  IsChecked, check_share-IsChecked, construct_header-build_header,
}
use forgenx_engine.Engine.Shares.Submit.{
  Node, lost_block, build_failed, meets_block, validate_share,
}
use forgenx_engine.Engine.Shares.QuietLaws.{after_block, validate_share-submits_nothing}
use forgenx_engine.Engine.Shares.VerdictLaws.{Verdict, check_share-Verdict}
use forgenx_engine.Coin.Interface.{Coin}
use forgenx_engine.Engine.Shares.EffectLaws.{submits_nothing, Contains}
use forgenx_engine.Engine.Shares.SubmitLaws.{IsKept, validate_share-IsKept}

abbrev job_text : Job
job_text = record {
  job_id = b'7' ∷ [];
  prev_hash = replicate 64 b'0';
  coinb1 = b'0' ∷ b'1' ∷ [];
  coinb2 = b'0' ∷ b'4' ∷ [];
  merkle_branches = [];
  version = b'0' ∷ b'0' ∷ b'0' ∷ b'0' ∷ b'0' ∷ b'0' ∷ b'0' ∷ b'2' ∷ [];
  n_bits = b'1' ∷ b'd' ∷ b'0' ∷ b'0' ∷ b'f' ∷ b'f' ∷ b'f' ∷ b'f' ∷ [];
  n_time = b'0' ∷ b'0' ∷ b'0' ∷ b'0' ∷ b'0' ∷ b'0' ∷ b'0' ∷ b'3' ∷ [];
  clean_jobs = true;
}

abbrev job : JobData
job = record {
  job = job_text;
  template = template;
  data_coinb1 = b'0' ∷ b'1' ∷ [];
  data_coinb2 = b'0' ∷ b'4' ∷ [];
  address_coinb2s = [];
  created = 0;
}

abbrev working : JobManager whole_floats
working = record manager {
  store = job ∷ [];
  jobs = (b'7' ∷ [], 0) ∷ [];
  current_tip = replicate 64 b'0';
  latest_job = some 0;
}

abbrev session : ShareSession whole_floats
session = record {
  mining_address = [];
  extra_nonce1 = b'0' ∷ b'2' ∷ [];
  difficulty = 0;
  prev_difficulty = 0;
  diff_changed_at = 0;
  job_difficulty = λ id. none;
}

abbrev share : ShareSubmission
share = record {
  worker_name = b'w' ∷ [];
  job_id = b'7' ∷ [];
  extra_nonce2 = b'0' ∷ b'3' ∷ [];
  n_time = b'0' ∷ b'0' ∷ b'0' ∷ b'0' ∷ b'0' ∷ b'0' ∷ b'0' ∷ b'3' ∷ [];
  nonce = b'0' ∷ b'0' ∷ b'0' ∷ b'0' ∷ b'0' ∷ b'0' ∷ b'0' ∷ b'5' ∷ [];
  version_bits = [];
}

abbrev graces : Graces
graces = record { stale_share_grace = 0; low_diff_share_grace = 0 }

abbrev bytes : List ℕ
bytes = 1 ∷ 2 ∷ 3 ∷ 4 ∷ []

-- The header, computed.
abbrev header : List ℕ
header = le32 2 ++ (zeros 32 ++ ((32 ∷ zeros 31) ++ (le32 3 ++ (le32 0x1d00ffff ++ le32 5))))

is_header : IsHeader first_byte job_text share (double_sha256 (first_byte.sum) bytes) header
unfolding double_sha256 first_byte forgenx_engine.Coin.Difficulty.bits_to_hex
    forgenx_engine.Prelude.Hex.hex_decode forgenx_engine.Prelude.Hex.from_hex_digit
    forgenx_engine.Coin.Difficulty.four_bytes final_version swap_endian_words
    forgenx_engine.Engine.Words.swap_words_into fold_branches_hex to_hash
    forgenx_engine.Prelude.Bytes.copy_at
is_header = record {
  base = 2;
  n_time = 3;
  bits = 0x1d00ffff;
  nonce = 5;
  version_is = refl;
  n_time_is = refl;
  bits_is = refl;
  nonce_is = refl;
  header_is = refl;
}

is_checked : IsChecked first_byte whole_floats 9 graces working session share job bytes header
unfolding forgenx_engine.Engine.Jobs.get_job forgenx_engine.Prelude.Table.lookup
    forgenx_engine.Engine.Shares.is_stale forgenx_engine.Engine.Shares.coinb2_of
    forgenx_engine.Prelude.Hex.hex_decode forgenx_engine.Prelude.Hex.from_hex_digit
is_checked = record {
  known = refl;
  fresh = refl;
  coinb2 = b'0' ∷ b'4' ∷ [];
  coinb2_is = refl;
  coinbase_is = refl;
  header_is = is_header;
}

abbrev block_hash : List ℕ
block_hash = zeros 31 ++ (32 ∷ [])

hash_is : reverse_bytes (double_sha256 (first_byte.sum) header) ≡ block_hash
unfolding double_sha256 first_byte reverse_bytes
hash_is = refl

meets : meets_difficulty whole_floats 9 graces session (b'7' ∷ []) block_hash ≡ true
unfolding meets_difficulty forgenx_engine.Coin.Difficulty.hash_meets_difficulty
    forgenx_engine.Coin.Difficulty.hash_meets_target
    forgenx_engine.Coin.Difficulty.difficulty_to_target forgenx_engine.Coin.Difficulty.set_bytes
    forgenx_engine.Coin.Difficulty.set_bytes_from
meets = refl

abbrev accepted : Accepted whole_floats
accepted = accepted_share whole_floats job bytes header block_hash

check_share-Verdict_example :
    Verdict first_byte whole_floats 9 graces working session share
      (check_share whole_floats first_byte 9 graces working session share)
check_share-Verdict_example =
    check_share-Verdict first_byte whole_floats 9 graces working session share

is_accepted : check_share whole_floats first_byte 9 graces working session share ≡ ok accepted
is_accepted =
    rw (hash_is, meets) at
      (check_share-IsChecked first_byte whole_floats 9 graces working session share job bytes header
        is_checked)

prev_hash_size : length (swap_endian_words (replicate 64 b'0')) ≡ 32
unfolding swap_endian_words forgenx_engine.Engine.Words.swap_words_into
    forgenx_engine.Prelude.Hex.hex_decode forgenx_engine.Prelude.Hex.from_hex_digit
prev_hash_size = refl

hash_size : length (double_sha256 (first_byte.sum) bytes) ≡ 32
unfolding double_sha256 first_byte
hash_size = refl

construct_header-build_header_example :
    (construct_header first_byte job_text share (double_sha256 (first_byte.sum) bytes) ≡ ok header)
    × (header
        ≡ build_header
            (final_version 2 [])
            (swap_endian_words (replicate 64 b'0'))
            (compute_merkle_root first_byte (double_sha256 (first_byte.sum) bytes) [])
            3
            0x1d00ffff
            5)
    × (length header ≡ 80)
unfolding is_header
construct_header-build_header_example =
    construct_header-build_header first_byte job_text share (double_sha256 (first_byte.sum) bytes)
      header [] is_header prev_hash_size hash_size tt refl

abbrev node : Node
node = record {
  best_block_hash = none;
  submit_block = λ block_hex. true;
  block_hash = λ height. none;
  check_rtt = λ hash t. none;
}

-- A block of eCash six nanoseconds behind another one.
abbrev xec_coin : Coin
xec_coin = record plain_coin { symbol = b'X' ∷ b'E' ∷ b'C' ∷ [] }

validate_share-submits_nothing_example :
    (submits_nothing whole_floats (
        (validate_share whole_floats xec_coin first_byte 9 graces working node
          (some 3)
          session
          share).1)
      ≡ true)
    × ((validate_share whole_floats xec_coin first_byte 9 graces working node
          (some 3)
          session
          share).0
        ≡ none)
validate_share-submits_nothing_example =
    validate_share-submits_nothing whole_floats xec_coin first_byte 9 graces working node (some 3)
      session share none (after_block accepted 3 is_accepted refl refl (omega arith))

is_block : meets_block whole_floats plain_coin accepted ≡ true
unfolding meets_block forgenx_engine.Engine.Shares.Submit.job_n_bits
    forgenx_engine.Coin.Difficulty.bits_to_hex forgenx_engine.Prelude.Hex.hex_decode
    forgenx_engine.Prelude.Hex.from_hex_digit forgenx_engine.Coin.Difficulty.four_bytes
    forgenx_engine.Coin.Difficulty.compact_to_big forgenx_engine.Coin.Difficulty.hash_meets_target
    forgenx_engine.Coin.Difficulty.set_bytes forgenx_engine.Coin.Difficulty.set_bytes_from
is_block = refl

validate_share-IsKept_example :
    ((block_hex : List ℕ) × (plain_coin.build_block header bytes template ≡ ok block_hex)
      × IsKept whole_floats plain_coin node (b'w' ∷ []) accepted block_hex (
          (validate_share whole_floats plain_coin first_byte 9 graces working node none session
            share).1))
    ⊎ ((e : CoinError) × (plain_coin.build_block header bytes template ≡ err e)
        × Contains whole_floats
            (lost_block build_failed (pos 7) (hex_encode block_hash) (b'w' ∷ []) [])
            ((validate_share whole_floats plain_coin first_byte 9 graces working node none session
              share).1))
validate_share-IsKept_example =
    validate_share-IsKept whole_floats plain_coin first_byte 9 graces working node none session
      share accepted is_accepted is_block refl
