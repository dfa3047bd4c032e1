-- ===== src/Engine/Shares/ConditionLaws.antt =====
-- pkg/engine/sharevalidator.go: the conditions of the checks of a share.
use forgenx_engine.Prelude.{
  ℕ, ◌-◌, ◌<◌, ◌≤◌, ◌≡◌, ◌≢◌, refl, List, Bool, true, false, ◌&&◌, ◌||◌, Option, none, some, ok,
  err, ltb, ◌⊎◌, inl, inr, Bool-cases, Option-cases, arith,
}
use forgenx_engine.Prelude.Table.{lookup, same_text_self, same_text_eq}
use forgenx_engine.Prelude.Float.{Floats}
use forgenx_engine.Coinbase.Merkle.{Sha256}
use forgenx_engine.Coin.Text.{same_text}
use forgenx_engine.Coin.Difficulty.{bits_to_hex, hash_meets_difficulty}
use forgenx_engine.Engine.Jobs.{Job, JobData, JobManager}
use forgenx_engine.Engine.Shares.{
  ShareSubmission, ShareSession, Refusal, no_coinbase, malformed, invalid_version, invalid_n_bits,
  Graces, construct_header, is_stale, coinb2_of, within_grace, meets_job, meets_difficulty,
}
use forgenx_engine.Engine.Shares.CheckLaws.{IsHeader}
use forgenx_engine.Engine.Shares.RefusalLaws.{construct_header-ok}

-- The number of a job or a share that is not four bytes of hex, the first of the four.
pub data IsBadNumber (job : Job) (share : ShareSubmission) : Refusal → Type 0 where
  bad_version : bits_to_hex job.version ≡ none → IsBadNumber job share invalid_version
  bad_time :
      (base : ℕ)
      → bits_to_hex job.version ≡ some base
      → bits_to_hex share.n_time ≡ none
      → IsBadNumber job share malformed
  bad_n_bits :
      (base n_time : ℕ)
      → bits_to_hex job.version ≡ some base
      → bits_to_hex share.n_time ≡ some n_time
      → bits_to_hex job.n_bits ≡ none
      → IsBadNumber job share invalid_n_bits
  bad_nonce :
      (base n_time bits : ℕ)
      → bits_to_hex job.version ≡ some base
      → bits_to_hex share.n_time ≡ some n_time
      → bits_to_hex job.n_bits ≡ some bits
      → bits_to_hex share.nonce ≡ none
      → IsBadNumber job share malformed

-- Either a header is made, or one of the four numbers is bad.
pub construct_header-cases :
    (sha : Sha256) (job : Job) (share : ShareSubmission) (coinbase_hash : List ℕ)
    → ((header : List ℕ) × (construct_header sha job share coinbase_hash ≡ ok header)
        × IsHeader sha job share coinbase_hash header)
      ⊎ ((r : Refusal) × (construct_header sha job share coinbase_hash ≡ err r)
          × IsBadNumber job share r)
unfolding construct_header
construct_header-cases sha job share coinbase_hash = elim (Option-cases (bits_to_hex job.version)) [
  | inl v ↦ inr (invalid_version, rw v refl, bad_version v)
  | inr (base, v) ↦ elim (Option-cases (bits_to_hex share.n_time)) [
    | inl t ↦ inr (malformed, rw (v, t) refl, bad_time base v t)
    | inr (n_time, t) ↦ elim (Option-cases (bits_to_hex job.n_bits)) [
      | inl b ↦ inr (invalid_n_bits, rw (v, t, b) refl, bad_n_bits base n_time v t b)
      | inr (bits, b) ↦ elim (Option-cases (bits_to_hex share.nonce)) [
        | inl n ↦ inr (malformed, rw (v, t, b, n) refl, bad_nonce base n_time bits v t b n)
        | inr (nonce, n) ↦
            let h : IsHeader sha job share coinbase_hash _ = record {
              base = base;
              n_time = n_time;
              bits = bits;
              nonce = nonce;
              version_is = v;
              n_time_is = t;
              bits_is = b;
              nonce_is = n;
              header_is = refl;
            } in
            inl (_, construct_header-ok sha job share coinbase_hash _ h, h)
      ]
    ]
  ]
]

both_true : (a b : Bool) → (a && b) ≡ true → (a ≡ true) × (b ≡ true)
both_true a b h = (ground arith, ground arith)

or_second : (a b c : Bool) → b ≡ true → (a || (b || c)) ≡ true
or_second a b c h = ground arith

or_third : (a b c : Bool) → c ≡ true → (a || (b || c)) ≡ true
or_third a b c h = ground arith

module _ (fl : Floats) where
  -- The job builds on the current tip, or the tip changed less than the grace ago.
  pub data IsFresh (now : ℕ) (graces : Graces) (jm : JobManager fl) (job : JobData) : Type 0 where
    on_tip : job.template.previous_block_hash ≡ jm.current_tip → IsFresh now graces jm job
    in_grace : now - jm.tip_changed_at < graces.stale_share_grace → IsFresh now graces jm job

  pub is_stale-cases :
      (now : ℕ) (graces : Graces) (jm : JobManager fl) (job : JobData)
      → ((is_stale fl now graces jm job ≡ false) × IsFresh now graces jm job)
        ⊎ ((is_stale fl now graces jm job ≡ true)
            × (job.template.previous_block_hash ≢ jm.current_tip)
            × (graces.stale_share_grace ≤ now - jm.tip_changed_at))
  unfolding is_stale
  is_stale-cases now graces jm job =
      let prev = job.template.previous_block_hash in
      elim (Bool-cases (same_text prev jm.current_tip)) [
        | inl e ↦ inl (rw e refl, on_tip (same_text_eq prev jm.current_tip e))
        | inr e ↦ elim (Bool-cases (ltb (now - jm.tip_changed_at) graces.stale_share_grace)) [
          | inl g ↦
              let on : ltb 0 graces.stale_share_grace ≡ true = ground arith in
              inl (rw (e, g, on) refl, in_grace (ground arith))
          | inr g ↦
              let off : (ltb 0 graces.stale_share_grace && false) ≡ false = ground arith in
              inr (
                rw (e, g, off) refl,
                λ same.
                    let there : same_text prev jm.current_tip ≡ true =
                      rw same (same_text_self jm.current_tip) in
                    cc,
                ground arith,
              )
        ]
      ]

  -- The second half of the coinbase that the session was sent.
  pub data IsOwn (jm : JobManager fl) (session : ShareSession fl) (job : JobData) (coinb2 : List ℕ)
      : Type 0 where
    own_address :
        jm.solo_mode ≡ true
        → lookup session.mining_address job.address_coinb2s ≡ some coinb2
        → IsOwn jm session job coinb2
    shared : jm.solo_mode ≡ false → job.data_coinb2 ≡ coinb2 → IsOwn jm session job coinb2

  pub coinb2_of-cases :
      (jm : JobManager fl) (session : ShareSession fl) (job : JobData)
      → ((coinb2 : List ℕ) × (coinb2_of fl jm session job ≡ ok coinb2)
          × IsOwn jm session job coinb2)
        ⊎ ((coinb2_of fl jm session job ≡ err no_coinbase)
            × (jm.solo_mode ≡ true)
            × (lookup session.mining_address job.address_coinb2s ≡ none))
  unfolding coinb2_of
  coinb2_of-cases jm session job = elim (Bool-cases jm.solo_mode) [
    | inl solo ↦ elim (Option-cases (lookup session.mining_address job.address_coinb2s)) [
      | inl missing ↦ inr (rw (solo, missing) refl, solo, missing)
      | inr (c2, found) ↦ inl (c2, rw (solo, found) refl, own_address solo found)
    ]
    | inr pool ↦ inl (job.data_coinb2, rw pool refl, shared pool refl)
  ]

  -- The hash meets the difficulty of the session, or the one before it where the change is less than
  -- the grace ago, or the lower one that the job was sent at.
  pub data Meets (now : ℕ) (graces : Graces) (session : ShareSession fl) (job_id hash : List ℕ)
      : Type 0 where
    at_session :
        hash_meets_difficulty fl hash session.difficulty ≡ true
        → Meets now graces session job_id hash
    at_previous :
        now - session.diff_changed_at < graces.low_diff_share_grace
        → fl.lt (fl.of_nat 0) session.prev_difficulty ≡ true
        → hash_meets_difficulty fl hash session.prev_difficulty ≡ true
        → Meets now graces session job_id hash
    at_job :
        (d : fl.F)
        → session.job_difficulty job_id ≡ some d
        → fl.lt d session.difficulty ≡ true
        → hash_meets_difficulty fl hash d ≡ true
        → Meets now graces session job_id hash

  within_grace-true :
      (now : ℕ) (graces : Graces) (session : ShareSession fl) (hash : List ℕ)
      → now - session.diff_changed_at < graces.low_diff_share_grace
      → fl.lt (fl.of_nat 0) session.prev_difficulty ≡ true
      → hash_meets_difficulty fl hash session.prev_difficulty ≡ true
      → within_grace fl now graces session hash ≡ true
  unfolding within_grace
  within_grace-true now graces session hash soon above met =
      let on : ltb 0 graces.low_diff_share_grace ≡ true = ground arith in
      let near : ltb (now - session.diff_changed_at) graces.low_diff_share_grace ≡ true =
        ground arith in
      rw (on, near, above, met) refl

  within_grace-holds :
      (now : ℕ) (graces : Graces) (session : ShareSession fl) (job_id hash : List ℕ)
      → within_grace fl now graces session hash ≡ true
      → Meets now graces session job_id hash
  unfolding within_grace
  within_grace-holds now graces session job_id hash h =
      let (on, h₁) = both_true (ltb 0 graces.low_diff_share_grace) _ h in
      let (above, h₂) = both_true (fl.lt (fl.of_nat 0) session.prev_difficulty) _ h₁ in
      let (near, met) =
        both_true (ltb (now - session.diff_changed_at) graces.low_diff_share_grace) _ h₂ in
      at_previous (ground arith) above met

  meets_job-holds :
      (now : ℕ) (graces : Graces) (session : ShareSession fl) (job_id hash : List ℕ)
      (asked : Option fl.F)
      → session.job_difficulty job_id ≡ asked
      → meets_job fl session.difficulty hash asked ≡ true
      → Meets now graces session job_id hash
  meets_job-holds now graces session job_id hash none e h = cc
  meets_job-holds now graces session job_id hash (some d) e h =
      let (lower, met) = both_true (fl.lt d session.difficulty) _ h in at_job d e lower met

  pub meets_difficulty-true :
      (now : ℕ) (graces : Graces) (session : ShareSession fl) (job_id hash : List ℕ)
      → Meets now graces session job_id hash
      → meets_difficulty fl now graces session job_id hash ≡ true
  unfolding meets_difficulty
  meets_difficulty-true now graces session job_id hash (at_session met) = rw met refl
  meets_difficulty-true now graces session job_id hash (at_previous soon above met) =
      or_second _ _ _ (within_grace-true now graces session hash soon above met)
  meets_difficulty-true now graces session job_id hash (at_job d sent lower met) =
      or_third (hash_meets_difficulty fl hash session.difficulty)
        (within_grace fl now graces session hash)
        (meets_job fl session.difficulty hash (session.job_difficulty job_id))
        (rw (sent, lower, met) refl)

  pub meets_difficulty-holds :
      (now : ℕ) (graces : Graces) (session : ShareSession fl) (job_id hash : List ℕ)
      → meets_difficulty fl now graces session job_id hash ≡ true
      → Meets now graces session job_id hash
  unfolding meets_difficulty
  meets_difficulty-holds now graces session job_id hash h =
      elim (Bool-cases (hash_meets_difficulty fl hash session.difficulty)) [
        | inl met ↦ at_session met
        | inr e ↦ elim (Bool-cases (within_grace fl now graces session hash)) [
          | inl grace ↦ within_grace-holds now graces session job_id hash grace
          | inr g ↦
              meets_job-holds now graces session job_id hash (session.job_difficulty job_id) refl
                (rw (e, g) at h)
        ]
      ]
