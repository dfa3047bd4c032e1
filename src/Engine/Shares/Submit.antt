-- ===== src/Engine/Shares/Submit.antt =====
-- pkg/engine/sharevalidator.go, ValidateShare: what happens to a refused share, to an accepted one,
-- and to a block. What is done is a list of effects, in order; the node's answers are parameters, as
-- is the verdict of CheckRTTTarget of pkg/coin/rtt.go, which is computed in floating point.
use forgenx_engine.Prelude.{
  ℕ, ◌+◌, ◌-◌, ◌*◌, ◌%◌, ◌^◌, List, [], ◌∷◌, ◌++◌, Bool, true, false, not, ◌&&◌, Option, none, some,
  Result, ok, err, ltb, ◌==◌, if◌then◌else◌,
}
use forgenx_engine.Prelude.Int.{ℤ, pos_part, neg_part}
use forgenx_engine.Prelude.Hex.{hex_encode}
use forgenx_engine.Prelude.Float.{Floats}
use forgenx_engine.Coinbase.Merkle.{Sha256}
use forgenx_engine.Coin.Text.{same_text}
use forgenx_engine.Coin.Errors.{CoinError}
use forgenx_engine.Coin.Interface.{Coin}
use forgenx_engine.Coin.Template.{BlockTemplate, RttData}
use forgenx_engine.Coin.Difficulty.{bits_to_hex, compact_to_big, hash_meets_target}
use forgenx_engine.Sv2.Target.{n_bits_to_target, target_to_difficulty}
use forgenx_engine.Engine.Jobs.{JobManager}
use forgenx_engine.Engine.Shares.{
  ShareSubmission, ShareSession, Refusal, Answer, answer_of, ShareKind, counted_as, logged, Graces,
  Accepted, check_share,
}

abbrev pub ecash_block_cooldown : ℕ
ecash_block_cooldown = 30 * 10 ^ 9

abbrev xec : List ℕ
xec = b'X' ∷ b'E' ∷ b'C' ∷ []

pub data LossReason : Type 0 where
  build_failed : LossReason
  submit_failed : LossReason

-- What the node answers: `none` and `false` are errors.
pub record Node : Type 0 where
  pub best_block_hash : Option (List ℕ)
  pub submit_block : List ℕ → Bool
  pub block_hash : ℤ → Option (List ℕ)
  pub check_rtt : (hash : List ℕ) → BlockTemplate → Option Bool

pub data Effect (fl : Floats) : Type 0 where
  -- Stats.RecordShare of a valid share, with the difficulty asked of it and its own
  counted : (worker : List ℕ) → (asked actual : fl.F) → Effect fl
  -- Stats.RecordShare of a refused one, and RejectionLog.Add; the difficulties are left out
  counted_refusal : ShareKind → (worker : List ℕ) → Effect fl
  rejected : Refusal → (worker job_id : List ℕ) → Effect fl
  -- RecordAcceptedShare of the session; the best ratio of the runner is updated from the same
  -- values, where the difficulty of the network is above zero
  session_share : (share_diff net_diff : fl.F) → (height : ℕ) → Effect fl
  -- SubmitBlock
  submitted : (block_hex : List ℕ) → Effect fl
  -- persistLostBlock
  lost_block : LossReason → (height : ℤ) → (hash worker block_hex : List ℕ) → Effect fl
  -- MarkBlockSubmit
  marked : (now : ℕ) → Effect fl
  -- RecordBlock of the statistics and of the store, with the work of the round, which starts anew
  recorded_block : (hash : List ℕ) → (height : ℤ) → (worker : List ℕ) → Effect fl
  -- the count of accepted shares of the runner, and a sample for its hashrate
  sampled : (now : ℕ) → fl.F → Effect fl

-- `uint32(n)` of an int64.
abbrev uint32_of : ℤ → ℕ
uint32_of n = (pos_part n + (2 ^ 64 - neg_part n)) % 2 ^ 32

-- IsRTTDataValid of pkg/coin/rtt.go.
unfoldable pub any_other : ℤ → List ℤ → Bool
any_other t [] = false
any_other t (u ∷ times) =
    let rest = any_other t times in
    if pos_part t + neg_part u == pos_part u + neg_part t then rest else true

abbrev pub is_rtt_data_valid : List ℤ → Bool
is_rtt_data_valid [] = false
is_rtt_data_valid (t ∷ times) = any_other t times

module _ (fl : Floats) (coin : Coin) where
  -- The symbol that the validator got from its coin.
  abbrev pub is_ecash : Bool
  is_ecash = same_text coin.symbol xec

  -- `nbits, _ := coin.BitsToHex(...)`: zero on an error.
  abbrev n_bits_or_zero : Option ℕ → ℕ
  n_bits_or_zero none = 0
  n_bits_or_zero (some n) = n

  unfoldable pub job_n_bits : Accepted fl → ℕ
  job_n_bits a = n_bits_or_zero (bits_to_hex a.job.job.n_bits)

  unfoldable pub meets_block : Accepted fl → Bool
  meets_block a = hash_meets_target a.block_hash_be (compact_to_big (job_n_bits a))

  -- Seconds of a cooldown that runs, on a coin that has one. `none` is the zero time.
  unfoldable pub cooling_down : (now : ℕ) → (last_submit : Option ℕ) → Bool
  cooling_down now none = false
  cooling_down now (some last) = is_ecash && ltb (now - last) ecash_block_cooldown

  abbrev other_tip : Option (List ℕ) → List ℕ → Bool
  other_tip none prev = false
  other_tip (some best) prev = not (same_text best prev)

  unfoldable pub reorganised : Node → Accepted fl → Bool
  reorganised node a = is_ecash && other_tip node.best_block_hash a.job.template.previous_block_hash

  abbrev refused_by : Option Bool → Bool
  refused_by none = false
  refused_by (some valid) = not valid

  abbrev rtt_fails : Node → Accepted fl → Option RttData → Bool
  rtt_fails node a none = false
  rtt_fails node a (some rtt) =
      is_rtt_data_valid rtt.prev_header_time
      && refused_by (node.check_rtt a.block_hash_be a.job.template)

  unfoldable pub misses_rtt : Node → Accepted fl → Bool
  misses_rtt node a = is_ecash && rtt_fails node a a.job.template.rtt

  abbrev confirmed : Option (List ℕ) → (hash worker : List ℕ) → (height : ℤ) → List (Effect fl)
  confirmed none hash worker height = []
  confirmed (some actual) hash worker height =
      if same_text actual hash then recorded_block hash height worker ∷ [] else []

  -- The effects of a submission, and whether the share goes on to be sampled.
  unfoldable pub submit_built :
      (now : ℕ)
      → Node
      → (worker : List ℕ) → Accepted fl
      → Result CoinError (List ℕ)
      → List (Effect fl) × Bool
  submit_built now node worker a (err e) = (
    lost_block build_failed a.job.template.height (hex_encode a.block_hash_be) worker [] ∷ [],
    false,
  )
  submit_built now node worker a (ok block_hex) =
      let height = a.job.template.height in
      let hash = hex_encode a.block_hash_be in
      if node.submit_block block_hex
      then (
        submitted block_hex
            ∷ ((if is_ecash then marked now ∷ [] else [])
                ++ confirmed (node.block_hash height) hash worker height),
        true,
      )
      else (submitted block_hex ∷ lost_block submit_failed height hash worker block_hex ∷ [], false)

  unfoldable pub found_block :
      (now : ℕ)
      → Node
      → (last_submit : Option ℕ) → (worker : List ℕ) → Accepted fl
      → List (Effect fl) × Bool
  found_block now node last_submit worker a =
      if cooling_down now last_submit
      then ([], false)
      else if reorganised node a
      then ([], false)
      else if misses_rtt node a
      then ([], false)
      else submit_built now node worker a
          (coin.build_block a.header a.coinbase_bytes a.job.template)

  abbrev pub sample_after : (now : ℕ) → fl.F → List (Effect fl) × Bool → List (Effect fl)
  sample_after now diff (effects, goes_on) =
      if goes_on then effects ++ (sampled now diff ∷ []) else effects

  -- Whether the share is a block, and what then happens.
  unfoldable pub block_effects :
      (now : ℕ)
      → Node
      → (last_submit : Option ℕ) → (worker : List ℕ) → Accepted fl
      → List (Effect fl) × Bool
  block_effects now node last_submit worker a =
      if meets_block a then found_block now node last_submit worker a else ([], true)

  -- An accepted share.
  unfoldable pub accept :
      (now : ℕ)
      → Node
      → (last_submit : Option ℕ) → ShareSession fl
      → (worker : List ℕ) → Accepted fl
      → List (Effect fl)
  accept now node last_submit session worker a =
      let net_diff = target_to_difficulty fl (n_bits_to_target (job_n_bits a)) in
      counted worker session.difficulty a.actual_diff
      ∷ session_share a.actual_diff net_diff (uint32_of a.job.template.height)
      ∷ sample_after now session.difficulty (block_effects now node last_submit worker a)

  abbrev count_refusal : List ℕ → Option ShareKind → List (Effect fl)
  count_refusal worker none = []
  count_refusal worker (some kind) = counted_refusal kind worker ∷ []

  unfoldable pub refuse : ShareSubmission → Refusal → List (Effect fl)
  refuse share refusal =
      (if logged refusal then rejected refusal share.worker_name share.job_id ∷ [] else [])
      ++ count_refusal share.worker_name (counted_as refusal)

  -- The answer is `none` where ValidateShare returns no error.
  abbrev conclude :
      (now : ℕ)
      → Node
      → (last_submit : Option ℕ) → ShareSession fl
      → ShareSubmission
      → Result Refusal (Accepted fl)
      → Option Answer × List (Effect fl)
  conclude now node last_submit session share (err refusal) =
      (some (answer_of refusal), refuse share refusal)
  conclude now node last_submit session share (ok a) =
      (none, accept now node last_submit session share.worker_name a)

  -- ValidateShare.
  unfoldable pub validate_share :
      (sha : Sha256) (now : ℕ)
      → Graces
      → JobManager fl
      → Node
      → (last_submit : Option ℕ) → ShareSession fl
      → ShareSubmission
      → Option Answer × List (Effect fl)
  validate_share sha now graces jm node last_submit session share =
      conclude now node last_submit session share (check_share fl sha now graces jm session share)
