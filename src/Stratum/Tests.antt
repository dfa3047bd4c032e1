-- ===== src/Stratum/Tests.antt =====
-- Shares at four seconds each, where one a second is wanted.
use forgenx_engine.Prelude.{ℕ, ◌*◌, ◌^◌, ◌≡◌, refl, [], ◌∷◌, false, true, arith}
use forgenx_engine.Prelude.Samples.{whole_floats}
use forgenx_engine.Prelude.Int.{pos}
use forgenx_engine.Stratum.VarDiff.{VarDiff, record_share}
use forgenx_engine.Stratum.VarDiffLaws.{
  IsOutcome, IsUnadjusted, record_shares, record_share-IsOutcome, change-then-IsUnadjusted,
}

abbrev second : ℕ
second = 10 ^ 9

abbrev busy : VarDiff whole_floats
busy = record {
  min_diff = 1;
  max_diff = 1000;
  target_time = 1;
  retarget_time = 2;
  variance_pct = 0;
  float_diff = false;
  float_diff_below_one = false;
  float_precision = pos 0;
  current_diff = 100;
  share_times = 4 * second ∷ 8 * second ∷ 12 * second ∷ [];
  last_retarget = 0;
  max_shares = 10;
}

record_share-IsOutcome_example :
    IsOutcome whole_floats (16 * second) busy (record_share whole_floats (16 * second) busy)
record_share-IsOutcome_example =
    record_share-IsOutcome whole_floats (16 * second) busy (omega arith)

adjusts : ((record_share whole_floats (16 * second) busy).0).adjusted ≡ true
unfolding record_share forgenx_engine.Stratum.VarDiff.window
    forgenx_engine.Stratum.VarDiff.average_share_time forgenx_engine.Stratum.VarDiff.retarget
    forgenx_engine.Stratum.VarDiff.adjust forgenx_engine.Stratum.VarDiff.calc_diff
    forgenx_engine.Stratum.VarDiff.clamped_diff forgenx_engine.Stratum.VarDiff.round_difficulty
adjusts = refl

change-then-IsUnadjusted_example : IsUnadjusted whole_floats (
    (record_shares whole_floats
      (17 * second ∷ 18 * second ∷ 19 * second ∷ [])
      ((record_share whole_floats (16 * second) busy).1)).0)
change-then-IsUnadjusted_example =
    change-then-IsUnadjusted whole_floats (16 * second) busy
      (17 * second ∷ 18 * second ∷ 19 * second ∷ []) (omega arith) adjusts (omega arith)
