-- ===== src/Engine/RejectionLaws.antt =====
-- pkg/engine/rejections.go: what the log keeps.
use forgenx_engine.Prelude.{
  ℕ, ◌+◌, ◌-◌, ◌≤◌, ◌≡◌, refl, sym, ◌∙◌, ap, append-nil, append_assoc, false, List, [], ◌∷◌, ◌++◌,
  none, some, Bool-cases, inl, inr, arith, ltb, length, drop, length-append, length-drop,
  drop-append, drop-drop, if◌then◌else◌,
}
use forgenx_engine.Prelude.Table.{lookup, lookup-put_self, lookup-put_other, same_text_eq}
use forgenx_engine.Coin.Text.{same_text}
use forgenx_engine.Engine.Rejections.{
  Rejection, RejectionLog, rejections_per_worker, worker_key, new_rejection_log, or_empty, recent,
  keep_last, stamped, add_at, add,
}

module _ {F : Type 0} where
  -- A list of calls of Add, with the times of the calls, on a log that is there.
  unfoldable pub add_all : List (ℕ × Rejection F) → RejectionLog F → RejectionLog F
  add_all [] log = log
  add_all ((now, rj) ∷ calls) log = add_all calls (add_at now (worker_key rj.worker) rj log)

  -- What the calls say of one worker, oldest first.
  unfoldable pub said_of : List ℕ → List (ℕ × Rejection F) → List (Rejection F)
  said_of key [] = []
  said_of key ((now, rj) ∷ calls) =
      let rest = said_of key calls in
      if same_text (worker_key rj.worker) key then stamped now rj ∷ rest else rest

  keep_last-drop : (list : List (Rejection F)) → keep_last list ≡ drop (length list - 10) list
  unfolding keep_last
  keep_last-drop list = elim (Bool-cases (ltb 10 (length list))) [
    | inl e ↦ rw e
    | inr e ↦ let none_over : length list - 10 ≡ 0 = ground arith in rw (e, none_over)
  ]

  pub length-keep_last : (list : List (Rejection F)) → length (keep_last list) ≤ 10
  length-keep_last list =
      rw (keep_last-drop list) (omega (arith, length-drop (length list - 10) list))

  drop-last_append :
      (k : ℕ) (xs : List (Rejection F)) (r : Rejection F)
      → drop
          (length (drop (length xs - k) xs ++ (r ∷ [])) - k)
          (drop (length xs - k) xs ++ (r ∷ []))
        ≡ drop (length (xs ++ (r ∷ [])) - k) (xs ++ (r ∷ []))
  drop-last_append k xs r =
      let whole = xs ++ (r ∷ []) in
      let first = length xs - k in
      let size : length whole ≡ length xs + 1 = length-append xs (r ∷ []) in
      let second : first + (length (drop first whole) - k) ≡ length whole - k =
        omega (arith, size, length-drop first whole) in
      rw (
        sym (drop-append first xs (r ∷ []) (omega arith)),
        drop-drop (length (drop first whole) - k) first whole,
        second,
      )

  keep_last-append :
      (old : List (Rejection F)) (rj : Rejection F)
      → keep_last (keep_last old ++ (rj ∷ [])) ≡ keep_last (old ++ (rj ∷ []))
  keep_last-append old rj = rw (
    keep_last-drop old,
    keep_last-drop (drop (length old - 10) old ++ (rj ∷ [])),
    keep_last-drop (old ++ (rj ∷ [])),
    drop-last_append 10 old rj,
  )

  recent-add_at_same :
      (now c : ℕ) (key : List ℕ) (rj : Rejection F) (log : RejectionLog F)
      → recent (c ∷ key) (add_at now (c ∷ key) rj log)
        ≡ keep_last (recent (c ∷ key) log ++ (stamped now rj ∷ []))
  unfolding add_at recent
  recent-add_at_same now c key rj log = ap or_empty (lookup-put_self (c ∷ key) _ log.by_worker)

  recent-add_at_other :
      (now : ℕ) (key other : List ℕ) (rj : Rejection F) (log : RejectionLog F)
      → same_text key other ≡ false
      → recent other (add_at now key rj log) ≡ recent other log
  unfolding add_at recent
  recent-add_at_other now [] other rj log h = refl
  recent-add_at_other now (c ∷ key) other rj log h =
      ap or_empty (lookup-put_other (c ∷ key) other _ log.by_worker h)

  -- The history from any state of a worker's list.
  recent-add_all_from :
      (calls : List (ℕ × Rejection F)) (c : ℕ) (key : List ℕ) (log : RejectionLog F)
      (before : List (Rejection F))
      → recent (c ∷ key) log ≡ keep_last before
      → recent (c ∷ key) (add_all calls log) ≡ keep_last (before ++ said_of (c ∷ key) calls)
  unfolding add_all said_of
  recent-add_all_from [] c key log before h = rw append-nil h
  recent-add_all_from ((now, rj) ∷ calls) c key log before h =
      let log' = add_at now (worker_key rj.worker) rj log in
      let ih = recent-add_all_from calls c key log' in
      elim (Bool-cases (same_text (worker_key rj.worker) (c ∷ key))) [
        | inl e ↦
            let same : worker_key rj.worker ≡ c ∷ key = same_text_eq _ _ e in
            let now_last : recent (c ∷ key) log' ≡ keep_last (before ++ (stamped now rj ∷ [])) =
              rw (same, recent-add_at_same now c key rj log, h)
                (keep_last-append before (stamped now rj)) in
            rw (e, sym (append_assoc before (stamped now rj ∷ []) (said_of (c ∷ key) calls)))
              (ih (before ++ (stamped now rj ∷ [])) now_last)
        | inr e ↦ rw e (ih before (recent-add_at_other now _ (c ∷ key) rj log e ∙ h))
      ]

  -- After any calls of Add on a new log, the list of a worker with a name is made of the last ten
  -- rejections that the calls had for that worker, the oldest first.
  pub recent-add_all :
      (calls : List (ℕ × Rejection F)) (c : ℕ) (key : List ℕ)
      → recent (c ∷ key) (add_all calls new_rejection_log)
        ≡ drop (length (said_of (c ∷ key) calls) - 10) (said_of (c ∷ key) calls)
  recent-add_all calls c key =
      recent-add_all_from calls c key new_rejection_log []
        (unfold recent new_rejection_log lookup keep_last in refl)
      ∙ keep_last-drop (said_of (c ∷ key) calls)

  abbrev pub IsShort : RejectionLog F → Type 0
  IsShort log = (key : List ℕ) → length (recent key log) ≤ rejections_per_worker

  add_at-IsShort :
      (now : ℕ) (key : List ℕ) (rj : Rejection F) (log : RejectionLog F)
      → IsShort log
      → IsShort (add_at now key rj log)
  add_at-IsShort now [] rj log h other = unfold add_at in h other
  add_at-IsShort now (c ∷ key) rj log h other = elim (Bool-cases (same_text (c ∷ key) other)) [
    | inl e ↦
        let same : c ∷ key ≡ other = same_text_eq (c ∷ key) other e in
        rw (sym same, recent-add_at_same now c key rj log)
          (length-keep_last (recent (c ∷ key) log ++ (stamped now rj ∷ [])))
    | inr e ↦ rw (recent-add_at_other now (c ∷ key) other rj log e) (h other)
  ]

  -- Where no worker of the log has more than ten rejections, none has after Add either, and Add
  -- changes the list of no worker but the one whose name stands behind the last dot; on a nil log
  -- Add leaves nil.
  pub add-IsShort :
      (now : ℕ) (rj : Rejection F) (log : RejectionLog F)
      → IsShort log
      → (log' : RejectionLog F) × (add now rj (some log) ≡ some log')
        × IsShort log'
        × ((other : List ℕ)
            → same_text (worker_key rj.worker) other ≡ false
            → recent other log' ≡ recent other log)
        × (add now rj none ≡ none)
  unfolding add
  add-IsShort now rj log h = (
    add_at now (worker_key rj.worker) rj log,
    refl,
    add_at-IsShort now (worker_key rj.worker) rj log h,
    λ other e. recent-add_at_other now (worker_key rj.worker) other rj log e,
    refl,
  )
