-- ===== src/Engine/Jobs/PollLaws.antt =====
-- pkg/engine/jobmanager.go: pollLoop and its stall handler.
use forgenx_engine.Prelude.{
  ℕ, ◌+◌, ◌≡◌, Bool, true, false, ◌&&◌, List, [], ◌∷◌, Option, none, ltb, leb, arith, if◌then◌else◌,
  length,
}
use forgenx_engine.Prelude.Float.{Floats}
use forgenx_engine.Coinbase.Merkle.{Sha256}
use forgenx_engine.Coin.Interface.{Coin}
use forgenx_engine.Coin.Template.{BlockTemplate}
use forgenx_engine.Engine.Jobs.{JobManager}
use forgenx_engine.Engine.Jobs.Refresh.{refresh_template, count_failure, poll}

abbrev count_call : Bool → ℕ
count_call true = 1
count_call false = 0

module _ (fl : Floats) (coin : Coin) (sha : Sha256) where
  -- The calls of the stall handler over a list of ticks, with the node's answers.
  unfoldable pub stall_calls :
      (has_handler : Bool) → List (ℕ × Option BlockTemplate) → ℕ → JobManager fl → ℕ
  stall_calls has_handler [] failures jm = 0
  stall_calls has_handler ((now, answer) ∷ ticks) failures jm =
      let (stalled, failures', jm') = poll fl coin sha has_handler now answer failures jm in
      count_call stalled + stall_calls has_handler ticks failures' jm'

  abbrev pub no_answers : List ℕ → List (ℕ × Option BlockTemplate)
  no_answers [] = []
  no_answers (now ∷ times) = (now, none) ∷ no_answers times

  -- However many polls in a row get no template, at whatever times, the stall handler, if there is
  -- one, is called once as soon as their number, with the failures counted before, has passed two,
  -- and never again.
  pub stall_calls-no_answers :
      (has_handler : Bool) (times : List ℕ) (failures : ℕ) (jm : JobManager fl)
      → stall_calls has_handler (no_answers times) failures jm
        ≡ (if has_handler && (ltb failures 3 && leb 3 (failures + length times)) then 1 else 0)
  unfolding stall_calls poll refresh_template count_failure
  stall_calls-no_answers true [] failures jm = ground arith
  stall_calls-no_answers false [] failures jm = omega arith
  stall_calls-no_answers true (now ∷ times) failures jm =
      ground (arith, stall_calls-no_answers true times (failures + 1) jm)
  stall_calls-no_answers false (now ∷ times) failures jm =
      ground (arith, stall_calls-no_answers false times (failures + 1) jm)
