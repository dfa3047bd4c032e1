-- ===== src/Engine/Shares/SubmitLaws.antt =====
-- pkg/engine/sharevalidator.go: the submission of a block.
use forgenx_engine.Prelude.{
  ℕ, ◌≡◌, refl, List, [], Bool, true, false, Option, none, some, ok, err, ◌⊎◌, inl, inr, Bool-cases,
  Result-cases,
}
use forgenx_engine.Prelude.Hex.{hex_encode}
use forgenx_engine.Prelude.Float.{Floats}
use forgenx_engine.Coinbase.Merkle.{Sha256}
use forgenx_engine.Coin.Errors.{CoinError}
use forgenx_engine.Coin.Interface.{Coin}
use forgenx_engine.Engine.Jobs.{JobManager}
use forgenx_engine.Engine.Shares.{ShareSubmission, ShareSession, Graces, Accepted, check_share}
use forgenx_engine.Engine.Shares.EffectLaws.{Contains, Contains-append}
use forgenx_engine.Engine.Shares.Submit.{
  Node, Effect, submitted, lost_block, build_failed, submit_failed, is_ecash, sample_after,
  meets_block, cooling_down, reorganised, misses_rtt, submit_built, found_block, block_effects,
  accept, validate_share,
}

module _ (fl : Floats) (coin : Coin) where
  sample_after-Contains :
      (now : ℕ) (diff : fl.F) (effect : Effect fl) (out : List (Effect fl) × Bool)
      → Contains fl effect (out.0)
      → Contains fl effect (sample_after fl coin now diff out)
  sample_after-Contains now diff effect (effects, true) h = Contains-append fl effect effects _ h
  sample_after-Contains now diff effect (effects, false) h = h

  -- What becomes of a block that is built or not.
  pub record IsKept (node : Node) (worker : List ℕ) (a : Accepted fl) (block_hex : List ℕ)
      (effects : List (Effect fl)) : Type 0 where
    pub sent : Contains fl (submitted block_hex) effects
    pub kept :
        (node.submit_block block_hex ≡ true)
        ⊎ Contains fl
            (lost_block submit_failed a.job.template.height
              (hex_encode a.block_hash_be)
              worker
              block_hex)
            effects

  submit_built-ok :
      (now : ℕ) (node : Node) (worker : List ℕ) (a : Accepted fl) (block_hex : List ℕ)
      → IsKept node worker a block_hex ((submit_built fl coin now node worker a (ok block_hex)).0)
  unfolding submit_built
  submit_built-ok now node worker a block_hex = elim (Bool-cases (node.submit_block block_hex)) [
    | inl e ↦ rw e (record { sent = inl refl; kept = inl e })
    | inr e ↦ rw e (record { sent = inl refl; kept = inr (inr (inl refl)) })
  ]

  submit_built-err :
      (now : ℕ) (node : Node) (worker : List ℕ) (a : Accepted fl) (e : CoinError)
      → Contains fl
          (lost_block build_failed a.job.template.height (hex_encode a.block_hash_be) worker [])
          ((submit_built fl coin now node worker a (err e)).0)
  unfolding submit_built
  submit_built-err now node worker a e = inl refl

  found_block-plain :
      (now : ℕ) (node : Node) (last_submit : Option ℕ) (worker : List ℕ) (a : Accepted fl)
      → is_ecash fl coin ≡ false
      → found_block fl coin now node last_submit worker a
        ≡ submit_built fl coin now node worker a
            (coin.build_block a.header a.coinbase_bytes a.job.template)
  unfolding found_block reorganised misses_rtt cooling_down
  found_block-plain now node none worker a h = rw h refl
  found_block-plain now node (some last) worker a h = rw h refl

  accept-Contains :
      (now : ℕ) (node : Node) (last_submit : Option ℕ) (session : ShareSession fl) (worker : List ℕ)
      (a : Accepted fl) (effect : Effect fl)
      → Contains fl effect ((block_effects fl coin now node last_submit worker a).0)
      → Contains fl effect (accept fl coin now node last_submit session worker a)
  unfolding accept
  accept-Contains now node last_submit session worker a effect h = inr (
      inr (
        sample_after-Contains now session.difficulty effect
          (block_effects fl coin now node last_submit worker a) h))

  -- An accepted share that is a block, on a coin that is not eCash: if the coin can build the block,
  -- it is submitted, and the node takes it or it is written to the record of lost blocks with its
  -- whole text; if the coin cannot, the record says so.
  pub validate_share-IsKept :
      (sha : Sha256) (now : ℕ) (graces : Graces) (jm : JobManager fl) (node : Node)
      (last_submit : Option ℕ) (session : ShareSession fl) (share : ShareSubmission)
      (a : Accepted fl)
      → check_share fl sha now graces jm session share ≡ ok a
      → meets_block fl coin a ≡ true
      → is_ecash fl coin ≡ false
      → ((block_hex : List ℕ) × (coin.build_block a.header a.coinbase_bytes a.job.template
            ≡ ok block_hex)
          × IsKept node share.worker_name a block_hex
              ((validate_share fl coin sha now graces jm node last_submit session share).1))
        ⊎ ((e : CoinError) × (coin.build_block a.header a.coinbase_bytes a.job.template ≡ err e)
            × Contains fl
                (lost_block build_failed a.job.template.height
                  (hex_encode a.block_hash_be)
                  share.worker_name
                  [])
                ((validate_share fl coin sha now graces jm node last_submit session share).1))
  unfolding validate_share block_effects
  validate_share-IsKept sha now graces jm node last_submit session share a checked meets plain =
      let worker = share.worker_name in
      let found = found_block-plain now node last_submit worker a plain in
      elim (Result-cases (coin.build_block a.header a.coinbase_bytes a.job.template)) [
        | inl (block_hex, built) ↦
            let k = submit_built-ok now node worker a block_hex in
            inl (
              block_hex,
              built,
              rw checked (record {
                sent =
                    accept-Contains now node last_submit session worker a _
                      (rw (meets, found, built) k.sent);
                kept = elim k.kept [
                  | inl took ↦ inl took
                  | inr lost ↦ inr (
                      accept-Contains now node last_submit session worker a _
                        (rw (meets, found, built) lost))
                ];
              }),
            )
        | inr (e, built) ↦ inr (
          e,
          built,
          rw checked (
              accept-Contains now node last_submit session worker a _
                (rw (meets, found, built) (submit_built-err now node worker a e))),
        )
      ]
