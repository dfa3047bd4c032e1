-- ===== src/Sv2/DeliveryLaws.antt =====
-- pkg/stratumv2/channel.go: RecordShare and FlushPendingDiff on a new difficulty.
use forgenx_engine.Prelude.{
  ℕ, ◌+◌, ◌≡◌, refl, ◌∙◌, true, false, List, Option, none, some, if_both, Bool-cases, inl, inr,
}
use forgenx_engine.Prelude.Bytes.{u64}
use forgenx_engine.Prelude.Float.{Floats}
use forgenx_engine.Stratum.VarDiff.{VarDiff, record_share as vardiff_record_share}
use forgenx_engine.Sv2.Channel.{Channel, diff_target_bytes, pool_target}
use forgenx_engine.Sv2.Accounting.{
  update_best, update_best_ratio, check_vardiff, record_share, nothing_pending, flushed, delivered,
  flush_pending_diff,
}

module _ (fl : Floats) where
  -- The difficulty and the target of the shares that the channel takes.
  abbrev pub SameWork : Channel fl → Channel fl → Type 0
  SameWork c c' =
      (c'.pool_difficulty ≡ c.pool_difficulty) × (c'.pool_target_bytes ≡ c.pool_target_bytes)

  abbrev SameDiffs : Channel fl → Channel fl → Type 0
  SameDiffs c c' = (c'.vardiff ≡ c.vardiff) × (c'.pending_diff ≡ c.pending_diff) × SameWork c c'

  update_best-SameDiffs :
      (now : ℕ) (d n : fl.F) (height : ℕ) (c : Channel fl)
      → SameDiffs c (update_best fl now d n height c)
  unfolding update_best
  update_best-SameDiffs now d n height c =
      if_both (SameDiffs c) _ _ _ (refl, refl, (refl, refl)) (refl, refl, (refl, refl))

  update_best_ratio-SameDiffs :
      (now : ℕ) (d n : fl.F) (height : ℕ) (c : Channel fl)
      → SameDiffs c (update_best_ratio fl now d n height c)
  unfolding update_best_ratio
  update_best_ratio-SameDiffs now d n height c =
      if_both (SameDiffs c) _ _ _ (refl, refl, (refl, refl)) (refl, refl, (refl, refl))

  check_vardiff-queues :
      (now : ℕ) (vd : VarDiff fl) (v : Option (VarDiff fl)) (c : Channel fl)
      → v ≡ some vd
      → fl.lt (fl.of_nat 0) c.pending_diff ≡ false
      → ((vardiff_record_share fl now vd).0).adjusted ≡ true
      → ((check_vardiff fl now v c).1).pending_diff
        ≡ ((vardiff_record_share fl now vd).0).clamped_diff
  unfolding check_vardiff
  check_vardiff-queues now vd none c e free adj = cc
  check_vardiff-queues now vd (some vd') c e free adj =
      let same : vd' ≡ vd = cc in rw (same, free, adj) refl

  record_share-queues :
      (now seq : ℕ) (d n : fl.F) (height : ℕ) (c : Channel fl) (vd : VarDiff fl)
      → c.vardiff ≡ some vd
      → fl.lt (fl.of_nat 0) c.pending_diff ≡ false
      → ((vardiff_record_share fl now vd).0).adjusted ≡ true
      → ((record_share fl now seq d n height c).1).pending_diff
        ≡ ((vardiff_record_share fl now vd).0).clamped_diff
  unfolding record_share
  record_share-queues now seq d n height c vd e free adj =
      let c₁ = record c { shares_accepted = u64 (c.shares_accepted + 1) } in
      let best = update_best-SameDiffs now d n height c₁ in
      let ratio = update_best_ratio-SameDiffs now d n height (update_best fl now d n height c₁) in
      check_vardiff-queues now vd _ _ (ratio.0 ∙ (best.0 ∙ e)) (rw (ratio.1, best.1) free) adj

  check_vardiff-SameWork :
      (now : ℕ) (v : Option (VarDiff fl)) (c : Channel fl)
      → SameWork c ((check_vardiff fl now v c).1)
  unfolding check_vardiff
  check_vardiff-SameWork now none c = (refl, refl)
  check_vardiff-SameWork now (some vd) c = elim (Bool-cases (fl.lt (fl.of_nat 0) c.pending_diff)) [
    | inl e ↦ rw e (refl, refl)
    | inr e ↦ rw e (
        if_both (SameWork c) ((vardiff_record_share fl now vd).0).adjusted _ _ (refl, refl)
          (refl, refl))
  ]

  record_share-SameWork :
      (now seq : ℕ) (d n : fl.F) (height : ℕ) (c : Channel fl)
      → SameWork c ((record_share fl now seq d n height c).1)
  unfolding record_share
  record_share-SameWork now seq d n height c =
      let c₁ = record c { shares_accepted = u64 (c.shares_accepted + 1) } in
      let best = (update_best-SameDiffs now d n height c₁).2 in
      let ratio =
        (update_best_ratio-SameDiffs now d n height (update_best fl now d n height c₁)).2 in
      let checked = check_vardiff-SameWork now _ _ in
      (checked.0 ∙ (ratio.0 ∙ best.0), checked.1 ∙ (ratio.1 ∙ best.1))

  flush-pending :
      (later : ℕ) (c : Channel fl) (target : List ℕ)
      → fl.le c.pending_diff (fl.of_nat 0) ≡ false
      → diff_target_bytes fl c.pending_diff ≡ some target
      → flush_pending_diff fl later c
        ≡ flushed
            (pool_target fl (delivered fl later c.pending_diff target c))
            c.pending_diff
            (delivered fl later c.pending_diff target c)
  unfolding flush_pending_diff
  flush-pending later c target pos target_is = rw (pos, target_is) refl

  flush-nothing :
      (later : ℕ) (c : Channel fl)
      → fl.le c.pending_diff (fl.of_nat 0) ≡ true
      → flush_pending_diff fl later c ≡ nothing_pending
  unfolding flush_pending_diff
  flush-nothing later c e = rw e refl

  -- Where nothing waits and the tracker of a channel changes the difficulty at a share, the channel
  -- goes on with its old difficulty and target until FlushPendingDiff. That gives it the new
  -- difficulty and the bytes of its target, remembers the old one with the time, and leaves nothing to flush. The floats are
  -- such that zero is at most zero, the difficulty is above zero, and its target has 32 bytes.
  pub flush-record_share :
      (now later seq height : ℕ) (d n : fl.F) (c : Channel fl) (vd : VarDiff fl) (target : List ℕ)
      → c.vardiff ≡ some vd
      → fl.lt (fl.of_nat 0) c.pending_diff ≡ false
      → ((vardiff_record_share fl now vd).0).adjusted ≡ true
      → fl.le ((vardiff_record_share fl now vd).0).clamped_diff (fl.of_nat 0) ≡ false
      → diff_target_bytes fl ((vardiff_record_share fl now vd).0).clamped_diff ≡ some target
      → fl.le (fl.of_nat 0) (fl.of_nat 0) ≡ true
      → SameWork c ((record_share fl now seq d n height c).1)
        × ((sent : List ℕ) × (c' : Channel fl) × (flush_pending_diff fl later
                ((record_share fl now seq d n height c).1)
              ≡ flushed sent ((vardiff_record_share fl now vd).0).clamped_diff c')
            × (c'.pool_difficulty ≡ ((vardiff_record_share fl now vd).0).clamped_diff)
            × (c'.pool_target_bytes ≡ target)
            × (c'.prev_diff ≡ c.pool_difficulty)
            × (c'.diff_changed_at ≡ later)
            × (flush_pending_diff fl later c' ≡ nothing_pending))
  flush-record_share now later seq height d n c vd target e free adj pos target_is zero_le =
      let queued = record_share-queues now seq d n height c vd e free adj in
      let c₁ = (record_share fl now seq d n height c).1 in
      let c₂ = delivered fl later ((vardiff_record_share fl now vd).0).clamped_diff target c₁ in
      let waits = record_share-SameWork now seq d n height c in
      (
        waits,
        (
          pool_target fl c₂,
          c₂,
          rw queued at (flush-pending later c₁ target (rw queued pos) (rw queued target_is)),
          refl,
          refl,
          waits.0,
          refl,
          flush-nothing later c₂ zero_le,
        ),
      )
