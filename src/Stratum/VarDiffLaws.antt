-- ===== src/Stratum/VarDiffLaws.antt =====
-- pkg/stratum/vardiff.go: when the difficulty changes.
use forgenx_engine.Prelude.{
  Bool, if◌then◌else◌, ℕ, suc, ◌+◌, ◌≤◌, ◌<◌, ◌≡◌, refl, List, [], ◌∷◌, ◌++◌, true, false, ltb, leb,
  not, ◌&&◌, length, arith, if_both, Bool-cases, inl, inr, length-append, length-drop,
}
use forgenx_engine.Prelude.Int.{sub_ℕ}
use forgenx_engine.Prelude.Float.{Floats}
use forgenx_engine.Stratum.VarDiff.{VarDiffResult, VarDiff, adjust, retarget, window, record_share}

module _ (fl : Floats) where
  abbrev pub IsWindow : VarDiff fl → Type 0
  IsWindow v = length v.share_times ≤ v.max_shares

  length-window : (now : ℕ) (v : VarDiff fl) → IsWindow v → length (window fl now v) ≤ v.max_shares
  unfolding window
  length-window now v h =
      ground
        (arith, length-append v.share_times (now ∷ []), length-drop 1 (v.share_times ++ (now ∷ [])))

  any_max : (n : ℕ) → length {A = ℕ} [] ≤ n
  any_max n = omega arith

  -- A change needs four shares in the window, and the time between two checks gone by.
  abbrev pub is_due : ℕ → VarDiff fl → Bool
  is_due now v =
      leb 4 (length (window fl now v))
      && not (fl.lt (fl.seconds (sub_ℕ now v.last_retarget)) v.retarget_time)

  -- One call of RecordShare, its result and the tracker behind it.
  pub record IsRetarget (now : ℕ) (v : VarDiff fl) (r : VarDiffResult fl) (v' : VarDiff fl)
      : Type 0 where
    pub bound : v'.max_shares ≡ v.max_shares
    pub in_window : IsWindow v'
    pub diff : v'.current_diff ≡ (if r.adjusted then r.clamped_diff else v.current_diff)
    pub times : v'.share_times ≡ (if r.adjusted then [] else window fl now v)
    pub due : (r.adjusted && not (is_due now v)) ≡ false

  -- Every outcome that changes no difficulty.
  quiet :
      (now : ℕ) (v v' : VarDiff fl) (r : VarDiffResult fl)
      → IsWindow v
      → r.adjusted ≡ false
      → v'.max_shares ≡ v.max_shares
      → v'.current_diff ≡ v.current_diff
      → v'.share_times ≡ window fl now v
      → IsRetarget now v r v'
  quiet now v v' r h no_change bound diff times = record {
    bound = bound;
    in_window = rw (times, bound) (length-window now v h);
    diff = rw no_change diff;
    times = rw no_change times;
    due = rw no_change refl;
  }

  change :
      (now : ℕ) (v v' : VarDiff fl) (r : VarDiffResult fl)
      → r.adjusted ≡ true
      → v'.max_shares ≡ v.max_shares
      → v'.current_diff ≡ r.clamped_diff
      → v'.share_times ≡ []
      → is_due now v ≡ true
      → IsRetarget now v r v'
  change now v v' r changed bound diff times due = record {
    bound = bound;
    in_window = rw times (any_max v'.max_shares);
    diff = rw changed diff;
    times = rw changed times;
    due = rw (changed, due) refl;
  }

  abbrev pub IsOutcome : ℕ → VarDiff fl → VarDiffResult fl × VarDiff fl → Type 0
  IsOutcome now v out = IsRetarget now v (out.0) (out.1)

  adjust-IsRetarget :
      (now : ℕ) (v : VarDiff fl) (avg : fl.F)
      → IsWindow v
      → is_due now v ≡ true
      → IsOutcome now v (adjust fl now (record v { share_times = window fl now v }) avg)
  unfolding adjust
  adjust-IsRetarget now v avg h due =
      if_both (IsOutcome now v) _ _ _ (quiet now v _ _ h refl refl refl refl)
        (change now v _ _ refl refl refl refl due)

  retarget-IsRetarget :
      (now : ℕ) (v : VarDiff fl) (avg : fl.F)
      → IsWindow v
      → is_due now v ≡ true
      → IsOutcome now v (retarget fl now (record v { share_times = window fl now v }) avg)
  unfolding retarget
  retarget-IsRetarget now v avg h due =
      if_both (IsOutcome now v) _ _ _ (quiet now v _ _ h refl refl refl refl)
        (adjust-IsRetarget now v avg h due)

  -- A share keeps the window within its size. It changes the difficulty only with four shares in the
  -- window and the time between two checks gone by; then the tracker has the difficulty that it
  -- reports, and an empty window. Otherwise the difficulty stays and the share is in the window.
  pub record_share-IsOutcome :
      (now : ℕ) (v : VarDiff fl) → IsWindow v → IsOutcome now v (record_share fl now v)
  unfolding record_share
  record_share-IsOutcome now v h = elim (Bool-cases (ltb (length (window fl now v)) 4)) [
    | inl e ↦ rw e (quiet now v _ _ h refl refl refl refl)
    | inr e ↦ elim (Bool-cases (fl.lt (fl.seconds (sub_ℕ now v.last_retarget)) v.retarget_time)) [
      | inl w ↦ rw (e, w) (quiet now v _ _ h refl refl refl refl)
      | inr w ↦
          let four : leb 4 (length (window fl now v)) ≡ true = ground arith in
          rw (e, w)
            (if_both (IsOutcome now v) _ _ _ (quiet now v _ _ h refl refl refl refl)
              (retarget-IsRetarget now v _ h (rw (four, w) refl)))
    ]
  ]

  -- RecordShare at each of the times, oldest first, and the results.
  unfoldable pub record_shares : List ℕ → VarDiff fl → List (VarDiffResult fl) × VarDiff fl
  record_shares [] v = ([], v)
  record_shares (now ∷ times) v =
      let (r, v') = record_share fl now v in let (rs, v'') = record_shares times v' in (r ∷ rs, v'')

  abbrev pub IsUnadjusted : List (VarDiffResult fl) → Type 0
  IsUnadjusted [] = Unit
  IsUnadjusted (r ∷ rs) = (r.adjusted ≡ false) × IsUnadjusted rs

  window-suc : (now : ℕ) (v : VarDiff fl) → length (window fl now v) ≤ suc (length v.share_times)
  unfolding window
  window-suc now v =
      ground
        (arith, length-append v.share_times (now ∷ []), length-drop 1 (v.share_times ++ (now ∷ [])))

  too_few :
      (now : ℕ) (v : VarDiff fl) (r : VarDiffResult fl) (v' : VarDiff fl)
      → IsRetarget now v r v'
      → length v.share_times < 3
      → r.adjusted ≡ false
  too_few now v r v' out h =
      let few : leb 4 (length (window fl now v)) ≡ false = ground (arith, window-suc now v) in
      elim (Bool-cases r.adjusted) [
        | inl e ↦ let bad : true ≡ false = rw (e, few) at out.due in cc
        | inr e ↦ e
      ]

  record_shares-IsUnadjusted :
      (times : List ℕ) (v : VarDiff fl)
      → IsWindow v
      → length v.share_times + length times ≤ 3
      → IsUnadjusted ((record_shares times v).0)
  unfolding record_shares
  record_shares-IsUnadjusted [] v w h = tt
  record_shares-IsUnadjusted (now ∷ times) v w h =
      let out = record_share-IsOutcome now v w in
      let v' = (record_share fl now v).1 in
      let same = too_few now v _ v' out (omega arith) in
      let kept : v'.share_times ≡ window fl now v = rw same at out.times in
      let grown : length v'.share_times ≤ suc (length v.share_times) = rw kept (window-suc now v) in
      (same, record_shares-IsUnadjusted times v' out.in_window (omega arith))

  -- A share that changes the difficulty is followed by three that do not, whatever the times.
  pub change-then-IsUnadjusted :
      (now : ℕ) (v : VarDiff fl) (times : List ℕ)
      → IsWindow v
      → ((record_share fl now v).0).adjusted ≡ true
      → length times ≤ 3
      → IsUnadjusted ((record_shares times ((record_share fl now v).1)).0)
  change-then-IsUnadjusted now v times w e h =
      let out = record_share-IsOutcome now v w in
      let empty : ((record_share fl now v).1).share_times ≡ [] = rw e at out.times in
      let none_left : length ((record_share fl now v).1).share_times ≡ 0 = rw empty refl in
      record_shares-IsUnadjusted times ((record_share fl now v).1) out.in_window (omega arith)
