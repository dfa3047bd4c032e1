-- ===== src/Sv2/Channel.antt =====
-- pkg/stratumv2/channel.go: a mining channel, and the extranonces of the server. Times are
-- nanoseconds, and the clock is read at the call.
use forgenx_engine.Prelude.{
  ℕ, ◌+◌, List, [], ◌∷◌, Bool, true, false, not, ◌&&◌, ◌||◌, Option, none, some, Result, ok, err,
  ltb, ◌==◌, if◌then◌else◌, take,
}
use forgenx_engine.Prelude.Int.{ℤ, pos, negsuc}
use forgenx_engine.Prelude.Bytes.{u16, u32, le32, zeros, copy_at}
use forgenx_engine.Prelude.Float.{Floats}
use forgenx_engine.Coin.Text.{same_text}
use forgenx_engine.Stratum.VarDiff.{VarDiff, VarDiffConfig, new_var_diff}
use forgenx_engine.Sv2.Target.{difficulty_to_target, target_to_bytes}

-- The counters that all sessions of the server share: channel identifiers and extranonces.
pub record Counters : Type 0 where
  pub channel_counter : ℕ
  pub extranonce_counter : ℕ

-- Allocate: the value, and the counter behind it, which wraps as a uint32.
unfoldable pub allocate : Counters → List ℕ × Counters
allocate c =
    (le32 c.extranonce_counter, record c { extranonce_counter = u32 (c.extranonce_counter + 1) })

pub data ChannelError : Type 0 where
  -- the panic of TargetToBytes on a target of more than 32 bytes
  target_too_large : ChannelError
  no_extranonce2_space : ChannelError
  needs_more_extranonce2 : ChannelError

unfoldable pub any_stale : ℕ → List ℕ → Bool
any_stale job_id [] = false
any_stale job_id (id ∷ ids) = (not (id == 0) && (id == job_id)) || any_stale job_id ids

module _ (fl : Floats) where
  pub record Channel : Type 0 where
    pub id : ℕ
    pub user_identity : List ℕ
    pub session_id : List ℕ
    pub extranonce1 : List ℕ
    pub is_extended : Bool
    pub extranonce2_size : ℕ
    pub pool_target_bytes : List ℕ
    pub pool_difficulty : fl.F
    pub vardiff : Option (VarDiff fl)
    pub pending_diff : fl.F
    pub prev_diff : fl.F
    pub diff_changed_at : ℕ
    pub vardiff_on_new_block : Bool
    pub current_job_id : ℕ
    pub active_prev_hash : List ℕ
    pub stale_job_ids : List ℕ
    -- nil slices are `none`
    pub own_coinbase1 : Option (List ℕ)
    pub own_coinbase2 : Option (List ℕ)
    pub last_acked_seq : ℕ
    pub have_acked : Bool
    pub shares_accepted : ℕ
    pub best_difficulty : fl.F
    pub best_network_diff : fl.F
    pub best_height : ℕ
    pub best_time : ℕ
    pub best_ratio : fl.F
    pub best_ratio_share_diff : fl.F
    pub best_ratio_net_diff : fl.F
    pub best_ratio_height : ℕ
    pub best_ratio_time : ℕ
    pub shares_rejected : ℕ
    pub total_diff : fl.F
    pub closed : Bool

  abbrev default_pool_difficulty : fl.F
  default_pool_difficulty = fl.of_nat 512

  -- The bytes of the target of a difficulty; `none` is the panic of TargetToBytes.
  unfoldable pub diff_target_bytes : fl.F → Option (List ℕ)
  diff_target_bytes diff = target_to_bytes (difficulty_to_target fl diff)

  abbrev new_vardiff : (now : ℕ) → fl.F → Option (VarDiffConfig fl) → Option (VarDiff fl)
  new_vardiff now start_diff none = none
  new_vardiff now start_diff (some cfg) = some (new_var_diff fl now cfg start_diff)

  abbrev target_or_panic : Option (List ℕ) → (List ℕ → Channel) → Result ChannelError Channel
  target_or_panic none make = err target_too_large
  target_or_panic (some target) make = ok (make target)

  -- newChannel. The counters move on whether or not the channel comes to be.
  unfoldable pub new_channel :
      (now : ℕ) (session_id user_identity : List ℕ) (vardiff_cfg : Option (VarDiffConfig fl))
      (vardiff_on_new_block : Bool) (start_diff : fl.F)
      → Counters
      → Result ChannelError Channel × Counters
  new_channel now session_id user_identity vardiff_cfg vardiff_on_new_block start_diff counters =
      let id = u32 (counters.channel_counter + 1) in
      let (en1, counters₂) = allocate (record counters { channel_counter = id }) in
      let start = if fl.le start_diff (fl.of_nat 0) then default_pool_difficulty else start_diff in
      (
        target_or_panic (diff_target_bytes start) (λ target. record {
          id = id;
          user_identity = user_identity;
          session_id = session_id;
          extranonce1 = en1;
          is_extended = false;
          extranonce2_size = 0;
          pool_target_bytes = target;
          pool_difficulty = start;
          vardiff = new_vardiff now start vardiff_cfg;
          pending_diff = fl.of_nat 0;
          prev_diff = fl.of_nat 0;
          diff_changed_at = 0;
          vardiff_on_new_block = vardiff_on_new_block;
          current_job_id = 0;
          active_prev_hash = zeros 32;
          stale_job_ids = zeros 8;
          own_coinbase1 = none;
          own_coinbase2 = none;
          last_acked_seq = 0;
          have_acked = false;
          shares_accepted = 0;
          best_difficulty = fl.of_nat 0;
          best_network_diff = fl.of_nat 0;
          best_height = 0;
          best_time = 0;
          best_ratio = fl.of_nat 0;
          best_ratio_share_diff = fl.of_nat 0;
          best_ratio_net_diff = fl.of_nat 0;
          best_ratio_height = 0;
          best_ratio_time = 0;
          shares_rejected = 0;
          total_diff = fl.of_nat 0;
          closed = false;
        }),
        counters₂,
      )

  -- The space that the coinbase reserves is an int, what the miner asks for a uint16.
  unfoldable pub grant : (requested : ℕ) (reserved : ℤ) → Channel → Result ChannelError Channel
  grant requested (negsuc n) ch = err no_extranonce2_space
  grant requested (pos n) ch =
      if n == 0
      then err no_extranonce2_space
      else if ltb (u16 n) requested
      then err needs_more_extranonce2
      else ok (record ch { is_extended = true; extranonce2_size = u16 n })

  abbrev grant? :
      (requested : ℕ) (reserved : ℤ) → Result ChannelError Channel → Result ChannelError Channel
  grant? requested reserved (err e) = err e
  grant? requested reserved (ok ch) = grant requested reserved ch

  unfoldable pub new_extended_channel :
      (now : ℕ) (session_id user_identity : List ℕ) (vardiff_cfg : Option (VarDiffConfig fl))
      (vardiff_on_new_block : Bool) (start_diff : fl.F) (requested_extranonce_size : ℕ)
      (reserved_extranonce2_size : ℤ)
      → Counters
      → Result ChannelError Channel × Counters
  new_extended_channel now session_id user_identity cfg on_new_block start requested reserved
        counters =
      let (ch, counters₂) =
        new_channel now session_id user_identity cfg on_new_block start counters in
      (grant? requested reserved ch, counters₂)

  unfoldable pub set_own_coinbase : Option (List ℕ) → Option (List ℕ) → Channel → Channel
  set_own_coinbase coinbase1 coinbase2 c = record c {
    own_coinbase1 = coinbase1;
    own_coinbase2 = coinbase2;
  }

  abbrev own_or_none :
      Option (List ℕ) → Option (List ℕ) → Option (Option (List ℕ) × Option (List ℕ))
  own_or_none none none = none
  own_or_none (some c1) c2 = some (some c1, c2)
  own_or_none none (some c2) = some (none, some c2)

  -- `none` where `ok` is false.
  unfoldable pub own_coinbase : Channel → Option (Option (List ℕ) × Option (List ℕ))
  own_coinbase c = own_or_none c.own_coinbase1 c.own_coinbase2

  unfoldable pub pool_target : Channel → List ℕ
  pool_target c = copy_at (zeros 32) 0 c.pool_target_bytes

  -- SetPoolDifficulty, with the bytes that it returns.
  unfoldable pub set_pool_difficulty : fl.F → Channel → Option (List ℕ × Channel)
  set_pool_difficulty diff c = elim (diff_target_bytes diff) [
    | none ↦ none
    | some target ↦
        let c' = record c { pool_target_bytes = target; pool_difficulty = diff } in
        some (pool_target c', c')
  ]

  unfoldable pub set_current_job : ℕ → Channel → Channel
  set_current_job job_id c = record c {
    stale_job_ids = c.current_job_id ∷ take 7 c.stale_job_ids;
    current_job_id = job_id;
  }

  unfoldable pub activate_prev_hash : List ℕ → Channel → Bool × Channel
  activate_prev_hash ph c =
      if same_text c.active_prev_hash ph
      then (false, c)
      else (true, record c { active_prev_hash = ph })

  unfoldable pub is_job_valid : ℕ → Channel → Bool
  is_job_valid job_id c = (job_id == c.current_job_id) || any_stale job_id c.stale_job_ids

  unfoldable pub close : Channel → Channel
  close c = record c { closed = true }
