-- ===== src/Engine/Jobs/RefreshLaws.antt =====
-- pkg/engine/jobmanager.go: refreshTemplate and the map of jobs.
use forgenx_engine.Prelude.{
  ℕ, ◌+◌, ◌-◌, ◌≤◌, ◌<◌, ◌≡◌, refl, ◌∙◌, Bool, true, false, not, ◌&&◌, List, [], ◌∷◌, ◌++◌, Option,
  none, some, Result, ok, err, ltb, arith, if_both, length, Bool-cases, inl, inr,
}
use forgenx_engine.Prelude.Table.{put, same_text_self}
use forgenx_engine.Prelude.Float.{Floats}
use forgenx_engine.Coinbase.Merkle.{Sha256}
use forgenx_engine.Coin.Text.{same_text}
use forgenx_engine.Coin.Errors.{CoinError}
use forgenx_engine.Coin.Interface.{Coin}
use forgenx_engine.Coin.Template.{BlockTemplate}
use forgenx_engine.Engine.Jobs.{JobData, JobManager}
use forgenx_engine.Engine.Jobs.Refresh.{
  RefreshError, hash_too_short, coinbase_failed, Halves, build_halves, install, publish, set_tip,
  take_template, refresh_template, refresh_interval,
}
use forgenx_engine.Engine.Jobs.PruneLaws.{length-prune_jobs}

module _ (fl : Floats) (coin : Coin) (sha : Sha256) where
  abbrev pub IsBounded : JobManager fl → Type 0
  IsBounded jm = length jm.jobs ≤ jm.max_job_history

  abbrev Outcome : Type 0
  Outcome = Result RefreshError (Option JobData) × JobManager fl

  pub record KeepsBound (jm : JobManager fl) (out : Outcome) : Type 0 where
    pub bound : IsBounded (out.1)
    pub limit : (out.1).max_job_history ≡ jm.max_job_history

  unchanged-KeepsBound :
      (r : Result RefreshError (Option JobData)) (jm : JobManager fl)
      → IsBounded jm
      → KeepsBound jm (r, jm)
  unchanged-KeepsBound r jm h = record { bound = h; limit = refl }

  install-IsBounded : (job : JobData) (jm : JobManager fl) → IsBounded (install fl coin sha job jm)
  unfolding install
  install-IsBounded job jm =
      let ref = length jm.store in
      let jobs = put job.job.job_id ref jm.jobs in
      let pruned = length-prune_jobs (jm.store ++ (job ∷ [])) jm.max_job_history jobs in
      elim (Bool-cases (ltb jm.max_job_history (length jobs))) [
        | inl e ↦ rw e pruned
        | inr e ↦ rw e (ground arith)
      ]

  publish-KeepsBound :
      (now : ℕ) (clean : Bool) (t : BlockTemplate) (halves : Result CoinError (Halves fl coin))
      (jm : JobManager fl)
      → IsBounded jm
      → KeepsBound jm (publish fl coin sha now clean t halves jm)
  unfolding publish
  publish-KeepsBound now clean t (err e) jm h = unchanged-KeepsBound _ jm h
  publish-KeepsBound now clean t (ok halves) jm h = record {
    bound = install-IsBounded _ _;
    limit = unfold install in refl;
  }

  set_tip-jobs :
      (now : ℕ) (clean : Bool) (tip : List ℕ) (jm : JobManager fl)
      → ((set_tip fl coin sha now clean tip jm).jobs ≡ jm.jobs)
        × ((set_tip fl coin sha now clean tip jm).max_job_history ≡ jm.max_job_history)
        × ((set_tip fl coin sha now clean tip jm).current_tip ≡ tip)
  unfolding set_tip
  set_tip-jobs now true tip jm = (refl, refl, refl)
  set_tip-jobs now false tip jm = (refl, refl, refl)

  take_template-KeepsBound :
      (now : ℕ) (force : Bool) (t : BlockTemplate) (jm : JobManager fl)
      → IsBounded jm
      → KeepsBound jm (take_template fl coin sha now force t jm)
  unfolding take_template
  take_template-KeepsBound now force t jm h =
      let tip = t.previous_block_hash in
      let clean = not (same_text tip jm.current_tip) in
      let jm₁ = set_tip fl coin sha now clean tip jm in
      let (jobs, max, at) = set_tip-jobs now clean tip jm in
      let published =
        publish-KeepsBound now clean t (build_halves fl coin t jm₁) jm₁ (rw (jobs, max) h) in
      let idle = unchanged-KeepsBound (ok none) jm h in
      if_both (KeepsBound jm) (clean && same_text jm.last_broadcast_tip tip) (ok none, jm) _ idle
        (if_both (KeepsBound jm)
          (not clean && (not force && ltb (now - jm.last_clean_job_at) refresh_interval))
          (ok none, jm) (publish fl coin sha now clean t (build_halves fl coin t jm₁) jm₁) idle
          (record { bound = published.bound; limit = published.limit ∙ max }))

  -- Whatever the node answers, a refresh of a manager with at most as many jobs in the map as the
  -- history may have leaves at most as many, and does not change that limit.
  pub refresh_template-IsBounded :
      (now : ℕ) (force : Bool) (answer : Option BlockTemplate) (jm : JobManager fl)
      → IsBounded jm
      → KeepsBound jm (refresh_template fl coin sha now force answer jm)
  unfolding refresh_template
  refresh_template-IsBounded now force none jm h = unchanged-KeepsBound _ jm h
  refresh_template-IsBounded now force (some t) jm h =
      if_both (KeepsBound jm) (ltb (length t.previous_block_hash) 16) (err hash_too_short, jm)
        (take_template fl coin sha now force t jm) (unchanged-KeepsBound _ jm h)
        (take_template-KeepsBound now force t jm h)

  -- A tip that has just been announced, with a coinbase that cannot be built.
  pub record IsUnbuildable (now : ℕ) (t : BlockTemplate) (e : CoinError) (jm : JobManager fl)
      : Type 0 where
    pub long_hash : ltb (length t.previous_block_hash) 16 ≡ false
    pub new_tip : same_text t.previous_block_hash jm.current_tip ≡ false
    pub not_sent : same_text jm.last_broadcast_tip t.previous_block_hash ≡ false
    pub fails :
        build_halves fl coin t (set_tip fl coin sha now true t.previous_block_hash jm) ≡ err e

  -- When the coinbase of a new tip cannot be built, the refresh fails, but the tip counts as
  -- announced: a poll of the same tip within the next thirty seconds finds nothing to do and
  -- succeeds, with no job for the tip.
  pub refresh_template-IsUnbuildable :
      (now later : ℕ) (t : BlockTemplate) (e : CoinError) (jm : JobManager fl)
      → IsUnbuildable now t e jm
      → later < now + refresh_interval
      → (jm' : JobManager fl) × (refresh_template fl coin sha now false (some t) jm
          ≡ (err (coinbase_failed e), jm'))
        × (refresh_template fl coin sha later false (some t) jm' ≡ (ok none, jm'))
        × (jm'.jobs ≡ jm.jobs)
        × (jm'.latest_job ≡ jm.latest_job)
  unfolding refresh_template take_template publish set_tip
  refresh_template-IsUnbuildable now later t e jm u soon =
      let tip = t.previous_block_hash in
      let jm' = set_tip fl coin sha now true tip jm in
      let recent : ltb (later - now) refresh_interval ≡ true = ground arith in
      (
        jm',
        rw (u.long_hash, u.new_tip, u.not_sent, u.fails) refl,
        rw (u.long_hash, same_text_self tip, recent) refl,
        refl,
        refl,
      )
