-- ===== src/Stratum/VarDiff.antt =====
-- pkg/stratum/vardiff.go: the difficulty of a session follows the times between its shares. Times
-- are nanoseconds, and the clock is read at the call.
use forgenx_engine.Prelude.{
  ℕ, ◌-◌, List, [], ◌∷◌, ◌++◌, Bool, true, false, not, ◌&&◌, ltb, if◌then◌else◌, length, get_or,
  drop,
}
use forgenx_engine.Prelude.Int.{ℤ, sub_ℕ}
use forgenx_engine.Prelude.Float.{Floats}

-- The texts of `Reason`.
pub data Reason : Type 0 where
  reason_none : Reason
  adjusted_diff : Reason
  within_variance : Reason
  min_shares : Reason
  retarget_wait : Reason

module _ (fl : Floats) where
  pub record VarDiffResult : Type 0 where
    pub adjusted : Bool
    pub reason : Reason
    pub shares : ℕ
    pub avg_time : fl.F
    pub target_time : fl.F
    pub accept_low : fl.F
    pub accept_high : fl.F
    pub current_diff : fl.F
    pub calc_diff : fl.F
    pub clamped_diff : fl.F
    pub change_pct : fl.F

  pub record VarDiffConfig : Type 0 where
    pub cfg_min_diff : fl.F
    pub cfg_max_diff : fl.F
    pub cfg_target_time : fl.F
    pub cfg_retarget_time : fl.F
    pub cfg_variance_pct : fl.F
    pub cfg_float_diff : Bool
    pub cfg_float_diff_below_one : Bool
    pub cfg_float_precision : ℤ

  pub record VarDiff : Type 0 where
    pub min_diff : fl.F
    pub max_diff : fl.F
    pub target_time : fl.F
    pub retarget_time : fl.F
    pub variance_pct : fl.F
    pub float_diff : Bool
    pub float_diff_below_one : Bool
    pub float_precision : ℤ
    pub current_diff : fl.F
    pub share_times : List ℕ
    pub last_retarget : ℕ
    pub max_shares : ℕ

  unfoldable pub new_var_diff : (now : ℕ) → VarDiffConfig → fl.F → VarDiff
  new_var_diff now cfg initial_diff = record {
    min_diff = cfg.cfg_min_diff;
    max_diff = cfg.cfg_max_diff;
    target_time = cfg.cfg_target_time;
    retarget_time = cfg.cfg_retarget_time;
    variance_pct = fl.div cfg.cfg_variance_pct (fl.of_nat 100);
    float_diff = cfg.cfg_float_diff;
    float_diff_below_one = cfg.cfg_float_diff_below_one;
    float_precision = cfg.cfg_float_precision;
    current_diff = initial_diff;
    share_times = [];
    last_retarget = now;
    max_shares = 10;
  }

  abbrev at_least : fl.F → fl.F → fl.F
  at_least low x = if fl.lt x low then low else x

  abbrev at_most : fl.F → fl.F → fl.F
  at_most high x = if fl.lt high x then high else x

  unfoldable pub round_difficulty : VarDiff → fl.F → fl.F
  round_difficulty v diff =
      if not v.float_diff
      then at_least (fl.of_nat 1) (fl.round diff)
      else if v.float_diff_below_one && fl.le (fl.of_nat 1) diff
      then fl.round diff
      else let p = fl.pow10 v.float_precision in fl.div (fl.round (fl.mul diff p)) p

  unfoldable pub reset_window : (now : ℕ) → fl.F → VarDiff → VarDiff
  reset_window now new_diff v = record v {
    current_diff = new_diff;
    share_times = [];
    last_retarget = now;
  }

  unfoldable pub average_share_time : List ℕ → fl.F
  average_share_time share_times =
      let n = length share_times in
      if ltb n 2
      then fl.of_nat 0
      else let total_time =
          fl.seconds (sub_ℕ (get_or share_times (n - 1) 0) (get_or share_times 0 0)) in
        fl.div total_time (fl.of_nat (n - 1))

  -- A result that says no more than why nothing was changed.
  abbrev pub only_reason : Reason → VarDiffResult
  only_reason why = record {
    adjusted = false;
    reason = why;
    shares = 0;
    avg_time = fl.of_nat 0;
    target_time = fl.of_nat 0;
    accept_low = fl.of_nat 0;
    accept_high = fl.of_nat 0;
    current_diff = fl.of_nat 0;
    calc_diff = fl.of_nat 0;
    clamped_diff = fl.of_nat 0;
    change_pct = fl.of_nat 0;
  }

  -- The results that carry the measured times.
  abbrev measured :
      VarDiff → Bool → Reason → (avg_time calc_diff clamped_diff change_pct : fl.F) → VarDiffResult
  measured v changed why avg calc clamped change = record {
    adjusted = changed;
    reason = why;
    shares = length v.share_times;
    avg_time = avg;
    target_time = v.target_time;
    accept_low = fl.mul v.target_time (fl.sub (fl.of_nat 1) v.variance_pct);
    accept_high = fl.mul v.target_time (fl.add (fl.of_nat 1) v.variance_pct);
    current_diff = v.current_diff;
    calc_diff = calc;
    clamped_diff = clamped;
    change_pct = change;
  }

  -- The float nearest to 0.01 is the quotient of 1 and 100, that of 0.25 is exact.
  unfoldable pub calc_diff : VarDiff → fl.F → fl.F
  calc_diff v avg =
      let ratio = at_most (fl.of_nat 4) (fl.div v.target_time avg) in
      fl.mul v.current_diff (at_least (fl.div (fl.of_nat 1) (fl.of_nat 4)) ratio)

  unfoldable pub clamped_diff : VarDiff → fl.F → fl.F
  clamped_diff v calc = round_difficulty v (at_most v.max_diff (at_least v.min_diff calc))

  -- RecordShare from the adjustment ratio on.
  unfoldable pub adjust : (now : ℕ) → VarDiff → fl.F → VarDiffResult × VarDiff
  adjust now v avg =
      let calc = calc_diff v avg in
      let new_diff = clamped_diff v calc in
      let change = fl.div (fl.abs (fl.sub new_diff v.current_diff)) v.current_diff in
      if fl.lt change (fl.div (fl.of_nat 1) (fl.of_nat 100))
      then (
        measured v false within_variance avg calc new_diff change,
        record v { last_retarget = now },
      )
      else (
        measured v true adjusted_diff avg calc new_diff change,
        record v { current_diff = new_diff; last_retarget = now; share_times = [] },
      )

  -- RecordShare from the check of the variance on.
  unfoldable pub retarget : (now : ℕ) → VarDiff → fl.F → VarDiffResult × VarDiff
  retarget now v avg =
      let variance = fl.div (fl.abs (fl.sub avg v.target_time)) v.target_time in
      if fl.le variance v.variance_pct
      then (
        measured v false within_variance avg v.current_diff v.current_diff (fl.of_nat 0),
        record v { last_retarget = now },
      )
      else adjust now v avg

  -- The times of the last shares, with that of this one.
  unfoldable pub window : (now : ℕ) → VarDiff → List ℕ
  window now v =
      let times = v.share_times ++ (now ∷ []) in
      if ltb v.max_shares (length times) then drop 1 times else times

  unfoldable pub record_share : (now : ℕ) → VarDiff → VarDiffResult × VarDiff
  record_share now v =
      let v₁ = record v { share_times = window now v } in
      if ltb (length v₁.share_times) 4
      then (only_reason min_shares, v₁)
      else if fl.lt (fl.seconds (sub_ℕ now v₁.last_retarget)) v₁.retarget_time
      then (only_reason retarget_wait, v₁)
      else let avg = average_share_time v₁.share_times in
        if fl.le avg (fl.of_nat 0) then (only_reason retarget_wait, v₁) else retarget now v₁ avg
