-- ===== src/Engine/Rejections.antt =====
-- pkg/engine/rejections.go: the last rejected shares of each worker. Times are nanoseconds, and zero
-- is Go's zero time; the clock is read at the call.
use forgenx_engine.Prelude.{
  ℕ, ◌+◌, ◌-◌, List, [], ◌∷◌, ◌++◌, Option, none, some, ltb, ◌==◌, if◌then◌else◌, length, drop,
}
use forgenx_engine.Prelude.Table.{Table, lookup, put}
use forgenx_engine.Coin.Text.{last_index}

abbrev pub rejections_per_worker : ℕ
rejections_per_worker = 10

-- A difficulty is a float, of any type `F`.
pub record Rejection (F : Type 0) : Type 0 where
  pub at : ℕ
  pub coin : List ℕ
  pub worker : List ℕ
  pub reason : List ℕ
  pub detail : List ℕ
  pub job_id : List ℕ
  pub required : F
  pub actual : F

-- A nil log is `none`, here and in what uses it.
pub record RejectionLog (F : Type 0) : Type 0 where
  pub by_worker : Table (List (Rejection F))

-- The part behind the last dot.
unfoldable pub worker_key : List ℕ → List ℕ
worker_key worker = elim (last_index worker b'.') [ none ↦ worker | some i ↦ drop (i + 1) worker ]

module _ {F : Type 0} where
  unfoldable pub new_rejection_log : RejectionLog F
  new_rejection_log = record { by_worker = [] }

  abbrev pub or_empty : Option (List (Rejection F)) → List (Rejection F)
  or_empty none = []
  or_empty (some list) = list

  -- `r.byWorker[key]`: an empty list where the key is missing.
  unfoldable pub recent : List ℕ → RejectionLog F → List (Rejection F)
  recent key log = or_empty (lookup key log.by_worker)

  -- `if len(list) > rejectionsPerWorker { list = list[len(list)-rejectionsPerWorker:] }`.
  unfoldable pub keep_last : List (Rejection F) → List (Rejection F)
  keep_last list =
      if ltb rejections_per_worker (length list)
      then drop (length list - rejections_per_worker) list
      else list

  unfoldable pub stamped : (now : ℕ) → Rejection F → Rejection F
  stamped now rj = if rj.at == 0 then record rj { at = now } else rj

  unfoldable pub add_at : (now : ℕ) → List ℕ → Rejection F → RejectionLog F → RejectionLog F
  add_at now [] rj log = log
  add_at now (c ∷ key) rj log = record {
    by_worker =
        put (c ∷ key) (keep_last (recent (c ∷ key) log ++ (stamped now rj ∷ []))) log.by_worker;
  }

  -- Add.
  unfoldable pub add : (now : ℕ) → Rejection F → Option (RejectionLog F) → Option (RejectionLog F)
  add now rj none = none
  add now rj (some log) = some (add_at now (worker_key rj.worker) rj log)

  -- ByWorker.
  unfoldable pub rejections_by_worker : Option (RejectionLog F) → Table (List (Rejection F))
  rejections_by_worker none = []
  rejections_by_worker (some log) = log.by_worker
