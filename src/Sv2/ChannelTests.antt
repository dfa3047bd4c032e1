-- ===== src/Sv2/ChannelTests.antt =====
-- A channel at work: targets, jobs, acknowledgements and a new difficulty.
use forgenx_engine.Prelude.{
  ◌==◌, if◌then◌else◌, ℕ, ◌++◌, ◌+◌, ◌-◌, ◌*◌, ◌^◌, ◌<◌, ◌≡◌, ◌≢◌, refl, List, [], ◌∷◌, false, true,
  none, some, ok, leb, length, take, bit_and, arith, Bool,
}
use forgenx_engine.Prelude.Int.{pos}
use forgenx_engine.Prelude.Bytes.{zeros, from_le, IsBytes, u8}
use forgenx_engine.Prelude.Samples.{whole_floats}
use forgenx_engine.Coinbase.Merkle.{Sha256}
use forgenx_engine.Coin.Difficulty.{compact_to_big}
use forgenx_engine.Stratum.VarDiff.{VarDiff, record_share as vardiff_record_share}
use forgenx_engine.Sv2.Pow.{build_header, hash_block_header}
use forgenx_engine.Sv2.Target.{
  ShareResult, n_bits_to_target, target_to_bytes, bytes_to_target, validate_share,
}
use forgenx_engine.Sv2.TargetLaws.{
  bytes_to_target-target_to_bytes, compact_to_big-eq-n_bits_to_target,
}
use forgenx_engine.Sv2.ShareLaws.{validate_share_lem}
use forgenx_engine.Sv2.Channel.{Counters, allocate, Channel, is_job_valid, diff_target_bytes}
use forgenx_engine.Sv2.ChannelLaws.{
  after_allocations, allocate-distinct, set_jobs, newest_first, member, is_job_valid-set_jobs,
  last_or,
}
use forgenx_engine.Sv2.Accounting.{record_share, nothing_pending, flushed, flush_pending_diff}
use forgenx_engine.Sv2.AccountingLaws.{Event, accept, refuse, acknowledged, acknowledged_total}
use forgenx_engine.Sv2.DeliveryLaws.{SameWork, flush-record_share}

bytes_to_target-target_to_bytes_example :
    (b : List ℕ) × (target_to_bytes (0xffff * 2 ^ 208) ≡ some b)
    × (length b ≡ 32)
    × IsBytes b
    × (bytes_to_target b ≡ 0xffff * 2 ^ 208)
bytes_to_target-target_to_bytes_example =
    bytes_to_target-target_to_bytes (0xffff * 2 ^ 208) (omega arith)

compact_to_big-eq-n_bits_to_target_example :
    compact_to_big 0x1d00ffff ≡ pos (n_bits_to_target 0x1d00ffff)
compact_to_big-eq-n_bits_to_target_example = compact_to_big-eq-n_bits_to_target 0x1d00ffff refl

first_byte : Sha256
first_byte = record {
  sum = λ payload. u8 (length payload) ∷ zeros 31;
  length_sum = λ payload. refl;
  bytes_sum = λ payload. omega arith;
}

abbrev hash : List ℕ
hash = 1 ∷ zeros 31

target_bytes : target_to_bytes 40 ≡ some (40 ∷ zeros 31)
unfolding target_to_bytes forgenx_engine.Coin.Difficulty.padded_bytes
    forgenx_engine.Coin.Base58.big_bytes forgenx_engine.Coinbase.Script.reverse_bytes
    forgenx_engine.Prelude.Bytes.copy_at
target_bytes = refl

validate_share_lem_example :
    (r : ShareResult whole_floats) × (validate_share whole_floats first_byte 2 hash hash 3 4 5
        (40 ∷ zeros 31)
        0x1d00ffff
      ≡ ok r)
    × (r.hash ≡ hash_block_header first_byte (build_header 2 hash hash 3 4 5))
    × (r.meets_pool ≡ leb (from_le r.hash) 40)
    × (r.meets_block ≡ leb (from_le r.hash) (n_bits_to_target 0x1d00ffff))
validate_share_lem_example =
    validate_share_lem whole_floats first_byte 2 hash hash 3 4 5 40 (40 ∷ zeros 31) 0x1d00ffff
      (omega arith) target_bytes

abbrev counters : Counters
counters = record { channel_counter = 0; extranonce_counter = 2 ^ 32 - 1 }

allocate-distinct_example :
    (allocate (after_allocations 0 counters)).0 ≢ (allocate (after_allocations 1 counters)).0
allocate-distinct_example = allocate-distinct 0 1 counters (omega arith) (omega arith) (omega arith)

abbrev second : ℕ
second = 10 ^ 9

abbrev tracker : VarDiff whole_floats
tracker = record {
  min_diff = 1;
  max_diff = 1000000;
  target_time = 1;
  retarget_time = 2;
  variance_pct = 0;
  float_diff = false;
  float_diff_below_one = false;
  float_precision = pos 0;
  current_diff = 65535;
  share_times = 4 * second ∷ 8 * second ∷ 12 * second ∷ [];
  last_retarget = 0;
  max_shares = 10;
}

abbrev channel : Channel whole_floats
channel = record {
  id = 1;
  user_identity = b'w' ∷ [];
  session_id = b's' ∷ [];
  extranonce1 = zeros 4;
  is_extended = false;
  extranonce2_size = 0;
  pool_target_bytes = hash;
  pool_difficulty = 100;
  vardiff = some tracker;
  pending_diff = 0;
  prev_diff = 0;
  diff_changed_at = 0;
  vardiff_on_new_block = false;
  current_job_id = 0;
  active_prev_hash = zeros 32;
  stale_job_ids = zeros 8;
  own_coinbase1 = none;
  own_coinbase2 = none;
  last_acked_seq = 0;
  have_acked = false;
  shares_accepted = 0;
  best_difficulty = 0;
  best_network_diff = 0;
  best_height = 0;
  best_time = 0;
  best_ratio = 0;
  best_ratio_share_diff = 0;
  best_ratio_net_diff = 0;
  best_ratio_height = 0;
  best_ratio_time = 0;
  shares_rejected = 0;
  total_diff = 0;
  closed = false;
}

abbrev ids : List ℕ
ids = 1 ∷ 2 ∷ 3 ∷ 4 ∷ 5 ∷ 6 ∷ 7 ∷ 8 ∷ 9 ∷ 10 ∷ []

is_job_valid-set_jobs_example :
    is_job_valid whole_floats 2 (set_jobs whole_floats ids channel)
    ≡ (if 2 == 0 then 0 == last_or 0 ids else member 2 (take 9 (newest_first whole_floats ids [])))
is_job_valid-set_jobs_example = is_job_valid-set_jobs whole_floats ids 2 channel refl refl

abbrev work : List (Event whole_floats)
work = refuse ∷ accept 6 1003 5 7 9 ∷ []

acknowledged_total_example :
    acknowledged whole_floats (accept 5 1000 5 7 9 ∷ work) channel + 1000 ≡ 1003 + 1
acknowledged_total_example =
    acknowledged_total whole_floats work 5 1000 1003 9 5 7 channel refl (omega arith, refl)

adjusts : ((vardiff_record_share whole_floats (16 * second) tracker).0).adjusted ≡ true
unfolding vardiff_record_share forgenx_engine.Stratum.VarDiff.window
    forgenx_engine.Stratum.VarDiff.average_share_time forgenx_engine.Stratum.VarDiff.retarget
    forgenx_engine.Stratum.VarDiff.adjust forgenx_engine.Stratum.VarDiff.calc_diff
    forgenx_engine.Stratum.VarDiff.clamped_diff forgenx_engine.Stratum.VarDiff.round_difficulty
adjusts = refl

positive : leb ((vardiff_record_share whole_floats (16 * second) tracker).0).clamped_diff 0 ≡ false
unfolding vardiff_record_share forgenx_engine.Stratum.VarDiff.window
    forgenx_engine.Stratum.VarDiff.average_share_time forgenx_engine.Stratum.VarDiff.retarget
    forgenx_engine.Stratum.VarDiff.adjust forgenx_engine.Stratum.VarDiff.calc_diff
    forgenx_engine.Stratum.VarDiff.clamped_diff forgenx_engine.Stratum.VarDiff.round_difficulty
positive = refl

abbrev new_target : List ℕ
new_target = zeros 26 ++ (255 ∷ 255 ∷ zeros 4)

has_target :
    diff_target_bytes whole_floats
      ((vardiff_record_share whole_floats (16 * second) tracker).0).clamped_diff
    ≡ some new_target
unfolding diff_target_bytes forgenx_engine.Sv2.Target.difficulty_to_target target_to_bytes
    vardiff_record_share forgenx_engine.Stratum.VarDiff.window
    forgenx_engine.Stratum.VarDiff.average_share_time forgenx_engine.Stratum.VarDiff.retarget
    forgenx_engine.Stratum.VarDiff.adjust forgenx_engine.Stratum.VarDiff.calc_diff
    forgenx_engine.Stratum.VarDiff.clamped_diff forgenx_engine.Stratum.VarDiff.round_difficulty
    forgenx_engine.Coin.Difficulty.padded_bytes forgenx_engine.Coin.Base58.big_bytes
    forgenx_engine.Coinbase.Script.reverse_bytes forgenx_engine.Prelude.Bytes.copy_at
has_target = refl

flush-record_share_example :
    SameWork whole_floats channel ((record_share whole_floats (16 * second) 1 5 7 8 channel).1)
    × ((sent : List ℕ) × (c' : Channel whole_floats) × (flush_pending_diff whole_floats 9
            ((record_share whole_floats (16 * second) 1 5 7 8 channel).1)
          ≡ flushed sent
              ((vardiff_record_share whole_floats (16 * second) tracker).0).clamped_diff
              c')
        × (c'.pool_difficulty
            ≡ ((vardiff_record_share whole_floats (16 * second) tracker).0).clamped_diff)
        × (c'.pool_target_bytes ≡ new_target)
        × (c'.prev_diff ≡ channel.pool_difficulty)
        × (c'.diff_changed_at ≡ 9)
        × (flush_pending_diff whole_floats 9 c' ≡ nothing_pending))
flush-record_share_example =
    flush-record_share whole_floats (16 * second) 9 1 8 5 7 channel tracker new_target refl refl
      adjusts positive has_target refl
