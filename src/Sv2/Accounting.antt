-- ===== src/Sv2/Accounting.antt =====
-- pkg/stratumv2/channel.go: the shares of a channel, their acknowledgement, and the delivery of a
-- new difficulty.
use forgenx_engine.Prelude.{
  ℕ, ◌+◌, ◌-◌, List, Bool, true, ◌&&◌, Option, none, some, ltb, if◌then◌else◌,
}
use forgenx_engine.Prelude.Bytes.{u64}
use forgenx_engine.Prelude.Float.{Floats}
use forgenx_engine.Stratum.VarDiff.{
  VarDiff, VarDiffResult, record_share as vardiff_record_share, reset_window, only_reason,
  reason_none,
}
use forgenx_engine.Sv2.Channel.{Channel, diff_target_bytes, pool_target}

module _ (fl : Floats) where
  -- What RecordShare returns: `lastAckedSeq`, `acceptedCount`, `sumDiff`, and the retarget.
  pub record Ack : Type 0 where
    pub last_seq : ℕ
    pub accepted : ℕ
    pub sum_diff : ℕ
    pub retarget : VarDiffResult fl

  unfoldable pub update_best :
      (now : ℕ) (diff network_diff : fl.F) (height : ℕ) → Channel fl → Channel fl
  update_best now diff network_diff height c =
      if fl.lt c.best_difficulty diff
      then record c {
        best_difficulty = diff;
        best_network_diff = network_diff;
        best_height = height;
        best_time = now;
      }
      else c

  unfoldable pub update_best_ratio :
      (now : ℕ) (diff network_diff : fl.F) (height : ℕ) → Channel fl → Channel fl
  update_best_ratio now diff network_diff height c =
      let ratio = fl.div diff network_diff in
      if fl.lt (fl.of_nat 0) network_diff && fl.lt c.best_ratio ratio
      then record c {
        best_ratio = ratio;
        best_ratio_share_diff = diff;
        best_ratio_net_diff = network_diff;
        best_ratio_height = height;
        best_ratio_time = now;
      }
      else c

  -- The cumulative acknowledgement of a share.
  unfoldable pub ack_count : ℕ → Channel fl → ℕ
  ack_count seq_num c =
      if c.have_acked && ltb c.last_acked_seq seq_num then seq_num - c.last_acked_seq else 1

  abbrev no_retarget : VarDiffResult fl
  no_retarget = only_reason fl reason_none

  -- The retarget, unless a new difficulty waits to be delivered.
  unfoldable pub check_vardiff :
      (now : ℕ) → Option (VarDiff fl) → Channel fl → VarDiffResult fl × Channel fl
  check_vardiff now none c = (no_retarget, c)
  check_vardiff now (some vd) c =
      let (r, vd') = vardiff_record_share fl now vd in
      if fl.lt (fl.of_nat 0) c.pending_diff then (no_retarget, c) else (
        r,
        (if r.adjusted
            then record c { vardiff = some vd'; pending_diff = r.clamped_diff }
            else record c { vardiff = some vd' }),
      )

  -- RecordShare.
  unfoldable pub record_share :
      (now seq_num : ℕ) (diff network_diff : fl.F) (height : ℕ) → Channel fl → Ack × Channel fl
  record_share now seq_num diff network_diff height c =
      let c₁ = record c { shares_accepted = u64 (c.shares_accepted + 1) } in
      let c₂ =
        update_best_ratio now diff network_diff height
          (update_best now diff network_diff height c₁) in
      let c₃ = record c₂ { total_diff = fl.add c₂.total_diff diff } in
      let accepted = ack_count seq_num c₃ in
      let c₄ = record c₃ { last_acked_seq = seq_num; have_acked = true } in
      let (r, c₅) = check_vardiff now c₄.vardiff c₄ in
      (
        record { last_seq = seq_num; accepted = accepted; sum_diff = fl.to_u64 diff; retarget = r },
        c₅,
      )

  unfoldable pub record_rejection : Channel fl → Channel fl
  record_rejection c = record c { shares_rejected = u64 (c.shares_rejected + 1) }

  -- PendingDiff.
  unfoldable pub pending_diff : Channel fl → fl.F × Bool
  pending_diff c = (c.pending_diff, fl.lt (fl.of_nat 0) c.pending_diff)

  abbrev reset? : (now : ℕ) → fl.F → Option (VarDiff fl) → Option (VarDiff fl)
  reset? now diff none = none
  reset? now diff (some vd) = some (reset_window fl now diff vd)

  pub data Flush : Type 0 where
    nothing_pending : Flush
    -- the panic of TargetToBytes
    flush_panic : Flush
    flushed : (target_bytes : List ℕ) (new_diff : fl.F) → Channel fl → Flush

  -- The channel behind the delivery.
  abbrev pub delivered : (now : ℕ) → fl.F → List ℕ → Channel fl → Channel fl
  delivered now new_diff target c = record c {
    pending_diff = fl.of_nat 0;
    prev_diff = c.pool_difficulty;
    diff_changed_at = now;
    pool_target_bytes = target;
    pool_difficulty = new_diff;
    vardiff = reset? now new_diff c.vardiff;
  }

  abbrev flush_to : (now : ℕ) → fl.F → Channel fl → Option (List ℕ) → Flush
  flush_to now new_diff c none = flush_panic
  flush_to now new_diff c (some target) =
      let c' = delivered now new_diff target c in flushed (pool_target fl c') new_diff c'

  -- FlushPendingDiff.
  unfoldable pub flush_pending_diff : (now : ℕ) → Channel fl → Flush
  flush_pending_diff now c =
      if fl.le c.pending_diff (fl.of_nat 0)
      then nothing_pending
      else flush_to now c.pending_diff c (diff_target_bytes fl c.pending_diff)
