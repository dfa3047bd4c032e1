-- ===== src/Engine/Jobs/BroadcastLaws.antt =====
-- pkg/engine/jobmanager.go: a job that refreshTemplate sends out.
use forgenx_engine.Prelude.{
  if◌then◌else◌, ℕ, ◌+◌, ◌-◌, ◌≡◌, refl, sym, ap, ◌∙◌, Bool, true, false, not, ◌&&◌, List, [], ◌∷◌,
  ◌++◌, Option, none, some, Result, ok, err, ltb, if_both, Bool-cases, inl, inr, length, get_elem?,
}
use forgenx_engine.Prelude.Bytes.{u64}
use forgenx_engine.Prelude.Float.{Floats}
use forgenx_engine.Coinbase.Merkle.{Sha256}
use forgenx_engine.Coin.Text.{same_text}
use forgenx_engine.Coin.Errors.{CoinError}
use forgenx_engine.Coin.Interface.{Coin}
use forgenx_engine.Coin.Template.{BlockTemplate}
use forgenx_engine.Engine.Words.{format_hex, swap_hash_endianness}
use forgenx_engine.Engine.Jobs.{JobData, JobManager, latest_template}
use forgenx_engine.Engine.Jobs.Refresh.{
  RefreshError, hash_too_short, compute_merkle_branches, Halves, build_halves, make_job, install,
  publish, set_tip, take_template, refresh_template, refresh_interval,
}

pub get_elem?-last {ℓ} :
    {A : Type ℓ} (xs : List A) (x : A) → get_elem? (xs ++ (x ∷ [])) (length xs) ≡ some x
get_elem?-last [] x = refl
get_elem?-last (y ∷ xs) x = get_elem?-last xs x

module _ (fl : Floats) (coin : Coin) (sha : Sha256) where
  abbrev Outcome : Type 0
  Outcome = Result RefreshError (Option JobData) × JobManager fl

  -- A broadcast job, the manager before it and behind it.
  pub record IsBroadcast (t : BlockTemplate) (jm : JobManager fl) (job : JobData)
      (jm' : JobManager fl) : Type 0 where
    pub from_template : job.template ≡ t
    pub prev_hash : job.job.prev_hash ≡ swap_hash_endianness t.previous_block_hash
    pub branches : job.job.merkle_branches ≡ compute_merkle_branches sha t
    pub clean : job.job.clean_jobs ≡ not (same_text t.previous_block_hash jm.current_tip)
    pub tip : jm'.current_tip ≡ t.previous_block_hash
    pub is_latest : latest_template fl jm' ≡ some t
    pub counted : jm'.job_counter ≡ u64 (jm.job_counter + 1)
    pub announced :
        jm'.last_broadcast_tip
        ≡ (if job.job.clean_jobs then t.previous_block_hash else jm.last_broadcast_tip)
    pub not_twice :
        (job.job.clean_jobs && same_text jm.last_broadcast_tip t.previous_block_hash) ≡ false

  abbrev IfBroadcast : BlockTemplate → JobManager fl → Outcome → Type 0
  IfBroadcast t jm out = (job : JobData) → out.0 ≡ ok (some job) → IsBroadcast t jm job (out.1)

  idle : (t : BlockTemplate) (jm : JobManager fl) → IfBroadcast t jm (ok none, jm)
  idle t jm job e = cc

  -- The state of the manager behind `install`.
  install-latest :
      (job : JobData) (jm : JobManager fl)
      → (latest_template fl (install fl coin sha job jm) ≡ some job.template)
        × ((install fl coin sha job jm).current_tip ≡ jm.current_tip)
        × ((install fl coin sha job jm).last_broadcast_tip ≡ jm.last_broadcast_tip)
        × ((install fl coin sha job jm).job_counter ≡ jm.job_counter)
  unfolding install latest_template
  install-latest job jm = (rw (get_elem?-last jm.store job) refl, refl, refl, refl)

  set_tip-state :
      (now : ℕ) (clean : Bool) (tip : List ℕ) (jm : JobManager fl)
      → ((set_tip fl coin sha now clean tip jm).current_tip ≡ tip)
        × ((set_tip fl coin sha now clean tip jm).job_counter ≡ jm.job_counter)
        × ((set_tip fl coin sha now clean tip jm).last_broadcast_tip
            ≡ (if clean then tip else jm.last_broadcast_tip))
  unfolding set_tip
  set_tip-state now true tip jm = (refl, refl, refl)
  set_tip-state now false tip jm = (refl, refl, refl)

  publish-IsBroadcast :
      (now : ℕ) (t : BlockTemplate) (jm : JobManager fl) (clean : Bool)
      (halves : Result CoinError (Halves fl coin))
      → not (same_text t.previous_block_hash jm.current_tip) ≡ clean
      → (clean && same_text jm.last_broadcast_tip t.previous_block_hash) ≡ false
      → IfBroadcast t jm (
          publish fl coin sha now clean t halves
            (set_tip fl coin sha now clean t.previous_block_hash jm))
  unfolding publish make_job
  publish-IsBroadcast now t jm clean (err e) c fresh job out = cc
  publish-IsBroadcast now t jm clean (ok halves) c fresh job out =
      let tip = t.previous_block_hash in
      let jm₁ = set_tip fl coin sha now clean tip jm in
      let counter = u64 (jm₁.job_counter + 1) in
      let made = make_job fl coin sha now clean t halves (format_hex 16 counter) in
      let same : made ≡ job = cc in
      let (tip_is, counted, announced) = set_tip-state now clean tip jm in
      let (latest_is, tip_kept, sent_kept, counter_is) =
        install-latest made (record jm₁ { job_counter = counter }) in
      let clean_is : job.job.clean_jobs ≡ clean =
        ap (λ (j : JobData). j.job.clean_jobs) (sym same) in
      record {
        from_template = ap (λ (j : JobData). j.template) (sym same);
        prev_hash = ap (λ (j : JobData). j.job.prev_hash) (sym same);
        branches = ap (λ (j : JobData). j.job.merkle_branches) (sym same);
        clean = clean_is ∙ sym c;
        tip = tip_kept ∙ tip_is;
        is_latest = latest_is;
        counted = counter_is ∙ ap (λ n. u64 (n + 1)) counted;
        announced = rw clean_is (sent_kept ∙ announced);
        not_twice = rw clean_is fresh;
      }

  take_template-IsBroadcast :
      (now : ℕ) (force : Bool) (t : BlockTemplate) (jm : JobManager fl)
      → IfBroadcast t jm (take_template fl coin sha now force t jm)
  unfolding take_template
  take_template-IsBroadcast now force t jm =
      let tip = t.previous_block_hash in
      let clean = not (same_text tip jm.current_tip) in
      let jm₁ = set_tip fl coin sha now clean tip jm in
      elim (Bool-cases (clean && same_text jm.last_broadcast_tip tip)) [
        | inl e ↦ rw e (idle t jm)
        | inr e ↦ rw e (
            if_both (IfBroadcast t jm)
              (not clean && (not force && ltb (now - jm.last_clean_job_at) refresh_interval))
              (ok none, jm) (publish fl coin sha now clean t (build_halves fl coin t jm₁) jm₁)
              (idle t jm) (publish-IsBroadcast now t jm clean (build_halves fl coin t jm₁) refl e))
      ]

  -- A job that a refresh broadcasts is made of the template: its previous hash is that of the
  -- template in the words of Stratum, and its branches are those of the transactions. It tells miners
  -- to drop their work exactly if the tip changed, and the last tip announced so was another. The
  -- template is then the latest one, its tip the current tip, and the job counter has moved on.
  pub refresh_template-IsBroadcast :
      (now : ℕ) (force : Bool) (t : BlockTemplate) (jm : JobManager fl) (job : JobData)
      → (refresh_template fl coin sha now force (some t) jm).0 ≡ ok (some job)
      → IsBroadcast t jm job ((refresh_template fl coin sha now force (some t) jm).1)
  unfolding refresh_template
  refresh_template-IsBroadcast now force t jm job e =
      if_both (IfBroadcast t jm) (ltb (length t.previous_block_hash) 16) (err hash_too_short, jm)
        (take_template fl coin sha now force t jm) (λ j bad. cc)
        (take_template-IsBroadcast now force t jm) job e
