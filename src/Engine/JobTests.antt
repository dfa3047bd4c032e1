-- ===== src/Engine/JobTests.antt =====
-- A job manager with a coin of four bytes of coinbase, and the log of rejections.
use forgenx_engine.Prelude.{
  min, ℕ, ◌+◌, ◌-◌, ◌≡◌, refl, List, [], ◌∷◌, true, false, none, some, ok, err, ltb, leb, ◌&&◌,
  if◌then◌else◌, length, drop, replicate, arith,
}
use forgenx_engine.Prelude.Int.{pos}
use forgenx_engine.Prelude.Bytes.{zeros, u8}
use forgenx_engine.Prelude.Hex.{hex_encode}
use forgenx_engine.Prelude.Samples.{whole_floats}
use forgenx_engine.Coinbase.Script.{reverse_bytes}
use forgenx_engine.Coinbase.Merkle.{Sha256}
use forgenx_engine.Coin.Errors.{bad_commitment}
use forgenx_engine.Coin.Interface.{Coin}
use forgenx_engine.Coin.Template.{BlockTemplate}
use forgenx_engine.Engine.Words.{format_hex, swap_endian_words, swap_hash_endianness}
use forgenx_engine.Engine.WordLaws.{swap_endian_words-swap_hash_endianness}
use forgenx_engine.Engine.Rejections.{Rejection, new_rejection_log, recent}
use forgenx_engine.Engine.RejectionLaws.{add_all, said_of, recent-add_all}
use forgenx_engine.Engine.Jobs.{JobData, JobManager, prune_jobs}
use forgenx_engine.Engine.Jobs.NewestLaws.{IsMap, In, IsOldOrKept, prune_jobs-newest}
use forgenx_engine.Prelude.Bytes.{All}
use forgenx_engine.Prelude.Table.{Table, lookup}
use forgenx_engine.Engine.Jobs.Refresh.{make_job, refresh_template, coinbase_failed}
use forgenx_engine.Engine.Jobs.RefreshLaws.{
  KeepsBound, refresh_template-IsBounded, refresh_template-IsUnbuildable,
}
use forgenx_engine.Engine.Jobs.BroadcastLaws.{IsBroadcast, refresh_template-IsBroadcast}
use forgenx_engine.Engine.Jobs.SessionLaws.{
  SessionEvent, join, leave, sessions_of, sessions?, run_sessions, tally, sessions_of-run_sessions,
}
use forgenx_engine.Engine.Jobs.PollLaws.{stall_calls, no_answers, stall_calls-no_answers}

unfoldable pub first_byte : Sha256
first_byte = record {
  sum = λ payload. u8 (length payload) ∷ zeros 31;
  length_sum = λ payload. refl;
  bytes_sum = λ payload. omega arith;
}

abbrev pub plain_coin : Coin
plain_coin = record {
  symbol = b'P' ∷ [];
  build_coinbase = λ t address network text n1 n2 extra. ok (b'0' ∷ b'1' ∷ [], b'0' ∷ b'4' ∷ []);
  build_block = λ header coinbase_tx t. ok (hex_encode header);
  pool_reward = λ t. t.coinbase_value;
}

abbrev broken_coin : Coin
broken_coin = record {
  symbol = b'P' ∷ [];
  build_coinbase = λ t address network text n1 n2 extra. err bad_commitment;
  build_block = λ header coinbase_tx t. err bad_commitment;
  pool_reward = λ t. t.coinbase_value;
}

abbrev pub template : BlockTemplate
template = record {
  version = 2;
  previous_block_hash = replicate 64 b'0';
  transactions = [];
  coinbase_aux = [];
  coinbase_value = pos 50;
  target = [];
  min_time = pos 0;
  mutable_fields = [];
  nonce_range = [];
  sig_op_limit = pos 0;
  size_limit = pos 0;
  weight_limit = pos 0;
  cur_time = pos 3;
  bits = b'1' ∷ b'd' ∷ b'0' ∷ b'0' ∷ b'f' ∷ b'f' ∷ b'f' ∷ b'f' ∷ [];
  height = pos 7;
  default_witness_commitment = [];
  rules = [];
  coinbase_txn = none;
  rtt = none;
}

abbrev pub manager : JobManager whole_floats
manager = record {
  address = b'a' ∷ [];
  network = [];
  coinbase_text = [];
  extra_nonce1_size = 4;
  extra_nonce2_size = 4;
  store = [];
  jobs = [];
  current_tip = b'x' ∷ [];
  tip_changed_at = 0;
  last_clean_job_at = 0;
  last_broadcast_tip = b'x' ∷ [];
  job_counter = 1;
  max_job_history = 20;
  solo_mode = false;
  connected_addrs = [];
  donation_script = none;
  donation_percent = 0;
  donation2_script = none;
  donation2_percent = 0;
  latest_job = none;
  has_v2 = true;
  latest_job_event = none;
}

abbrev sent_job : JobData
sent_job =
    make_job whole_floats plain_coin first_byte 9 true template
      (record { half1 = b'0' ∷ b'1' ∷ []; half2 = b'0' ∷ b'4' ∷ []; for_address = [] })
      (format_hex 16 2)

abbrev made_at : ℕ → JobData
made_at time = record sent_job { created = time }

abbrev three_jobs : Table ℕ
three_jobs = (b'1' ∷ [], 0) ∷ (b'2' ∷ [], 1) ∷ (b'3' ∷ [], 2) ∷ []

abbrev ages : List JobData
ages = made_at 5 ∷ made_at 3 ∷ made_at 4 ∷ []

three_jobs-IsMap : IsMap three_jobs
unfolding lookup
three_jobs-IsMap = (refl, (refl, (refl, tt)))

prune_jobs-newest_example :
    (length (prune_jobs ages 2 three_jobs) ≡ min 2 3)
    × All (λ x. In x three_jobs) (prune_jobs ages 2 three_jobs)
    × All (IsOldOrKept ages (prune_jobs ages 2 three_jobs)) three_jobs
prune_jobs-newest_example = prune_jobs-newest ages 2 three_jobs three_jobs-IsMap

refresh_template-IsBounded_example :
    KeepsBound whole_floats plain_coin first_byte manager
      (refresh_template whole_floats plain_coin first_byte 9 true (some template) manager)
refresh_template-IsBounded_example =
    refresh_template-IsBounded whole_floats plain_coin first_byte 9 true (some template) manager
      (omega arith)

is_sent :
    (refresh_template whole_floats plain_coin first_byte 9 true (some template) manager).0
    ≡ ok (some sent_job)
unfolding refresh_template forgenx_engine.Engine.Jobs.Refresh.take_template
    forgenx_engine.Engine.Jobs.Refresh.publish forgenx_engine.Engine.Jobs.Refresh.set_tip
    forgenx_engine.Engine.Jobs.Refresh.build_halves forgenx_engine.Engine.Jobs.Refresh.coinbase_for
    forgenx_engine.Engine.Jobs.Refresh.install
is_sent = refl

refresh_template-IsBroadcast_example :
    IsBroadcast whole_floats plain_coin first_byte template manager sent_job
      ((refresh_template whole_floats plain_coin first_byte 9 true (some template) manager).1)
refresh_template-IsBroadcast_example =
    refresh_template-IsBroadcast whole_floats plain_coin first_byte 9 true template manager sent_job
      is_sent

cannot_build :
    forgenx_engine.Engine.Jobs.Refresh.build_halves whole_floats broken_coin template (
      forgenx_engine.Engine.Jobs.Refresh.set_tip whole_floats broken_coin first_byte 9 true
        (replicate 64 b'0')
        manager)
    ≡ err bad_commitment
unfolding forgenx_engine.Engine.Jobs.Refresh.build_halves forgenx_engine.Engine.Jobs.Refresh.set_tip
    forgenx_engine.Engine.Jobs.Refresh.coinbase_for
cannot_build = refl

refresh_template-IsUnbuildable_example :
    (jm' : JobManager whole_floats) × (refresh_template whole_floats broken_coin first_byte 9 false
        (some template)
        manager
      ≡ (err (coinbase_failed bad_commitment), jm'))
    × (refresh_template whole_floats broken_coin first_byte 10 false (some template) jm'
        ≡ (ok none, jm'))
    × (jm'.jobs ≡ manager.jobs)
    × (jm'.latest_job ≡ manager.latest_job)
refresh_template-IsUnbuildable_example =
    refresh_template-IsUnbuildable whole_floats broken_coin first_byte 9 10 template bad_commitment
      manager (record { long_hash = refl; new_tip = refl; not_sent = refl; fails = cannot_build })
      (omega arith)

abbrev visits : List (SessionEvent whole_floats plain_coin)
visits = join (b'a' ∷ []) ∷ join (b'b' ∷ []) ∷ join (b'a' ∷ []) ∷ leave (b'a' ∷ []) ∷ []

abbrev solo : JobManager whole_floats
solo = record manager { solo_mode = true }

sessions_of-run_sessions_example :
    sessions? whole_floats plain_coin (b'a' ∷ []) (run_sessions whole_floats plain_coin visits solo)
    ≡ some (
        tally whole_floats plain_coin
          (b'a' ∷ [])
          visits
          (sessions_of whole_floats plain_coin (b'a' ∷ []) solo))
sessions_of-run_sessions_example =
    sessions_of-run_sessions whole_floats plain_coin visits b'a' [] solo refl

stall_calls-no_answers_example :
    stall_calls whole_floats plain_coin first_byte true
      (no_answers whole_floats plain_coin first_byte (1 ∷ 2 ∷ 3 ∷ 4 ∷ []))
      0
      manager
    ≡ (if true && (ltb 0 3 && leb 3 (0 + 4)) then 1 else 0)
stall_calls-no_answers_example =
    stall_calls-no_answers whole_floats plain_coin first_byte true (1 ∷ 2 ∷ 3 ∷ 4 ∷ []) 0 manager

swap_endian_words-swap_hash_endianness_example :
    swap_endian_words (swap_hash_endianness (hex_encode (1 ∷ 2 ∷ zeros 30)))
    ≡ reverse_bytes (1 ∷ 2 ∷ zeros 30)
swap_endian_words-swap_hash_endianness_example =
    swap_endian_words-swap_hash_endianness (1 ∷ 2 ∷ zeros 30) (omega arith) refl

abbrev rejection : ℕ → Rejection ℕ
rejection n = record {
  at = n;
  coin = [];
  worker = b'p' ∷ b'.' ∷ b'w' ∷ [];
  reason = [];
  detail = [];
  job_id = [];
  required = 1;
  actual = 0;
}

abbrev calls : List (ℕ × Rejection ℕ)
calls = (5, rejection 0) ∷ (6, rejection 1) ∷ (7, rejection 2) ∷ []

recent-add_all_example :
    recent (b'w' ∷ []) (add_all calls new_rejection_log)
    ≡ drop (length (said_of (b'w' ∷ []) calls) - 10) (said_of (b'w' ∷ []) calls)
recent-add_all_example = recent-add_all calls b'w' []
