-- ===== src/Engine/Jobs/Refresh.antt =====
-- pkg/engine/jobmanager.go: refreshTemplate and what it calls, and the loop that polls the node.
use forgenx_engine.Prelude.{
  ℕ, ◌+◌, ◌-◌, ◌*◌, ◌^◌, List, [], ◌∷◌, ◌++◌, Bool, true, false, not, ◌&&◌, Option, none, some,
  Result, ok, err, ltb, ◌==◌, if◌then◌else◌, length, map,
}
use forgenx_engine.Prelude.Int.{ℤ, pos, ltb_ℤ}
use forgenx_engine.Prelude.Bytes.{u64}
use forgenx_engine.Prelude.Hex.{hex_encode, hex_decode}
use forgenx_engine.Prelude.Table.{Table, put}
use forgenx_engine.Prelude.Float.{Floats}
use forgenx_engine.Coinbase.Script.{reverse_bytes}
use forgenx_engine.Coinbase.Merkle.{Sha256}
use forgenx_engine.Coinbase.Builder.{CoinbaseOutput}
use forgenx_engine.Coin.Text.{same_text}
use forgenx_engine.Coin.Errors.{CoinError}
use forgenx_engine.Coin.Interface.{Coin}
use forgenx_engine.Coin.Template.{BlockTemplate, BlockTemplateTransaction}
use forgenx_engine.Engine.Branches.{compute_stratum_merkle_branches}
use forgenx_engine.Engine.Words.{swap_hash_endianness, format_hex, format_hex_int}
use forgenx_engine.Engine.Jobs.{JobData, JobManager, prune_jobs}

pub data RefreshError : Type 0 where
  rpc_failed : RefreshError
  -- the panic of `template.PreviousBlockHash[:16]`
  hash_too_short : RefreshError
  coinbase_failed : CoinError → RefreshError

-- The hash of a transaction in internal order; a hash that is no hex is left out.
abbrev sibling : Option (List ℕ) → List (List ℕ) → List (List ℕ)
sibling none hashes = hashes
sibling (some bytes) hashes = reverse_bytes bytes ∷ hashes

abbrev hash_hex : BlockTemplateTransaction → List ℕ
hash_hex tx = if same_text tx.tx_id [] then tx.hash else tx.tx_id

unfoldable pub tx_hashes : List BlockTemplateTransaction → List (List ℕ)
tx_hashes [] = []
tx_hashes (tx ∷ txs) = sibling (hex_decode (hash_hex tx)) (tx_hashes txs)

unfoldable pub compute_merkle_branches : Sha256 → BlockTemplate → List (List ℕ)
compute_merkle_branches sha template =
    map hex_encode (compute_stratum_merkle_branches sha (tx_hashes template.transactions))

abbrev pub refresh_interval : ℕ
refresh_interval = 30 * 10 ^ 9

module _ (fl : Floats) (coin : Coin) where
  -- One donation, where its script and its percentage are set.
  unfoldable pub donation : ℤ → Option (List ℕ) → fl.F → List CoinbaseOutput
  donation pool_reward none percent = []
  donation pool_reward (some script) percent =
      let v = fl.to_i64 (fl.div (fl.mul (fl.of_int pool_reward) percent) (fl.of_nat 100)) in
      if fl.lt (fl.of_nat 0) percent && ltb_ℤ (pos 0) v
      then (record { value = v; script = script }) ∷ []
      else []

  unfoldable pub donation_outputs : BlockTemplate → JobManager fl → List CoinbaseOutput
  donation_outputs template jm =
      let pool_reward = coin.pool_reward template in
      donation pool_reward jm.donation_script jm.donation_percent
      ++ donation pool_reward jm.donation2_script jm.donation2_percent

  -- BuildCoinbase with the settings of the manager.
  unfoldable pub coinbase_for :
      BlockTemplate → List ℕ → JobManager fl → Result CoinError (List ℕ × List ℕ)
  coinbase_for template address jm =
      coin.build_coinbase template address jm.network jm.coinbase_text jm.extra_nonce1_size
        jm.extra_nonce2_size (donation_outputs template jm)

  -- The two halves of a job's coinbase, and the second half for each address.
  pub record Halves : Type 0 where
    pub half1 : List ℕ
    pub half2 : List ℕ
    pub for_address : Table (List ℕ)

  -- One address of the loop. The first half is kept from the first address, if that succeeds.
  abbrev add_address :
      (first : Bool) → List ℕ → Result CoinError (List ℕ × List ℕ) → Halves → Halves
  add_address first addr (err e) halves = halves
  add_address first addr (ok (c1, c2)) halves = record halves {
    half1 = (if first then c1 else halves.half1);
    for_address = put addr c2 halves.for_address;
  }

  unfoldable pub solo_loop :
      (first : Bool) → Table ℕ → BlockTemplate → JobManager fl → Halves → Halves
  solo_loop first [] template jm halves = halves
  solo_loop first ((addr, sessions) ∷ addrs) template jm halves =
      solo_loop false addrs template jm
        (add_address first addr (coinbase_for template addr jm) halves)

  abbrev half1_or_empty : Result CoinError (List ℕ × List ℕ) → List ℕ
  half1_or_empty (err e) = []
  half1_or_empty (ok (c1, c2)) = c1

  -- Where no address gave a first half, the fallback address does.
  unfoldable pub with_fallback : BlockTemplate → JobManager fl → Halves → Halves
  with_fallback template jm halves =
      if same_text halves.half1 [] && not (same_text jm.address [])
      then record halves { half1 = half1_or_empty (coinbase_for template jm.address jm) }
      else halves

  abbrev pool_halves : Result CoinError (List ℕ × List ℕ) → Result CoinError Halves
  pool_halves (err e) = err e
  pool_halves (ok (c1, c2)) = ok (record { half1 = c1; half2 = c2; for_address = [] })

  abbrev no_halves : Halves
  no_halves = record { half1 = []; half2 = []; for_address = [] }

  unfoldable pub build_halves : BlockTemplate → JobManager fl → Result CoinError Halves
  build_halves template jm =
      if jm.solo_mode
      then ok (with_fallback template jm (solo_loop true jm.connected_addrs template jm no_halves))
      else pool_halves (coinbase_for template jm.address jm)

  module _ (sha : Sha256) where
    unfoldable pub make_job :
        (now : ℕ) (clean_jobs : Bool) → BlockTemplate → Halves → (job_id : List ℕ) → JobData
    make_job now clean_jobs template halves job_id = record {
      job = record {
        job_id = job_id;
        prev_hash = swap_hash_endianness template.previous_block_hash;
        coinb1 = halves.half1;
        coinb2 = halves.half2;
        merkle_branches = compute_merkle_branches sha template;
        version = format_hex 8 template.version;
        n_bits = template.bits;
        n_time = format_hex_int 8 template.cur_time;
        clean_jobs = clean_jobs;
      };
      template = template;
      data_coinb1 = halves.half1;
      data_coinb2 = halves.half2;
      address_coinb2s = halves.for_address;
      created = now;
    }

    -- The job is put in the map, it is the latest one, and the map is pruned.
    unfoldable pub install : JobData → JobManager fl → JobManager fl
    install job jm =
        let ref = length jm.store in
        let store = jm.store ++ (job ∷ []) in
        let jobs = put job.job.job_id ref jm.jobs in
        record jm {
          store = store;
          jobs =
              (if ltb jm.max_job_history (length jobs)
                then prune_jobs store jm.max_job_history jobs
                else jobs);
          latest_job = some ref;
          latest_job_event = (if jm.has_v2 then some ref else jm.latest_job_event);
        }

    -- The job of a template whose coinbase was built.
    unfoldable pub publish :
        (now : ℕ) (clean_jobs : Bool)
        → BlockTemplate
        → Result CoinError Halves
        → JobManager fl
        → Result RefreshError (Option JobData) × JobManager fl
    publish now clean_jobs template (err e) jm = (err (coinbase_failed e), jm)
    publish now clean_jobs template (ok halves) jm =
        let counter = u64 (jm.job_counter + 1) in
        let job = make_job now clean_jobs template halves (format_hex 16 counter) in
        (ok (some job), install job (record jm { job_counter = counter }))

    -- The tip of the template, and when it changed.
    unfoldable pub set_tip : (now : ℕ) (clean_jobs : Bool) → List ℕ → JobManager fl → JobManager fl
    set_tip now true tip jm = record jm {
      last_broadcast_tip = tip;
      tip_changed_at = now;
      last_clean_job_at = now;
      current_tip = tip;
    }
    set_tip now false tip jm = record jm { current_tip = tip }

    unfoldable pub take_template :
        (now : ℕ) (force : Bool)
        → BlockTemplate
        → JobManager fl
        → Result RefreshError (Option JobData) × JobManager fl
    take_template now force template jm =
        let tip = template.previous_block_hash in
        let clean_jobs = not (same_text tip jm.current_tip) in
        if clean_jobs && same_text jm.last_broadcast_tip tip
        then (ok none, jm)
        else if not clean_jobs && (not force && ltb (now - jm.last_clean_job_at) refresh_interval)
        then (ok none, jm)
        else let jm₁ = set_tip now clean_jobs tip jm in
          publish now clean_jobs template (build_halves template jm₁) jm₁

    -- refreshTemplate, with the node's answer; what it returns is the job that it broadcasts, if it
    -- does, to the callbacks of both protocols.
    unfoldable pub refresh_template :
        (now : ℕ) (force : Bool)
        → Option BlockTemplate
        → JobManager fl
        → Result RefreshError (Option JobData) × JobManager fl
    refresh_template now force none jm = (err rpc_failed, jm)
    refresh_template now force (some template) jm =
        if ltb (length template.previous_block_hash) 16
        then (err hash_too_short, jm)
        else take_template now force template jm

    abbrev pub max_template_failures : ℕ
    max_template_failures = 3

    abbrev failed : Result RefreshError (Option JobData) → Bool
    failed (err e) = true
    failed (ok job) = false

    -- A tick of the poll loop: whether the stall handler, if there is one, is called, and the failures
    -- in a row.
    unfoldable pub count_failure : (has_handler failure : Bool) → ℕ → Bool × ℕ
    count_failure has_handler true failures =
        ((failures + 1 == max_template_failures) && has_handler, failures + 1)
    count_failure has_handler false failures = (false, 0)

    unfoldable pub poll :
        (has_handler : Bool) (now : ℕ)
        → Option BlockTemplate
        → ℕ
        → JobManager fl
        → Bool × ℕ × JobManager fl
    poll has_handler now template failures jm =
        let (r, jm') = refresh_template now false template jm in
        let (stalled, failures') = count_failure has_handler (failed r) failures in
        (stalled, failures', jm')
