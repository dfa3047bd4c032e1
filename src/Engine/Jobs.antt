-- ===== src/Engine/Jobs.antt =====
-- pkg/engine/jobmanager.go: the state of the job manager. A job is an object that the map of jobs and
-- the latest job share, so jobs stand in a store, and the map and the manager hold references to it.
-- Times are nanoseconds.
pub mod Refresh
pub mod Sessions
pub mod PruneLaws
pub mod NewestLaws
pub mod RefreshLaws
pub mod BroadcastLaws
pub mod PollLaws
pub mod SessionLaws
use forgenx_engine.Prelude.{
  ℕ, zero, suc, ◌+◌, ◌-◌, List, [], ◌∷◌, ◌++◌, Bool, Option, none, some, ltb, if◌then◌else◌, length,
  get_elem?,
}
use forgenx_engine.Prelude.Table.{Table, lookup, remove}
use forgenx_engine.Prelude.Int.{ℤ, pos, ◌-ℤ◌, ltb_ℤ, pos_part}
use forgenx_engine.Prelude.Float.{Floats}
use forgenx_engine.Coin.Template.{BlockTemplate}

-- `stratum.Job` of pkg/stratum/protocol.go.
pub record Job : Type 0 where
  pub job_id : List ℕ
  pub prev_hash : List ℕ
  pub coinb1 : List ℕ
  pub coinb2 : List ℕ
  pub merkle_branches : List (List ℕ)
  pub version : List ℕ
  pub n_bits : List ℕ
  pub n_time : List ℕ
  pub clean_jobs : Bool

-- A nil map is an empty one: nothing tells them apart.
pub record JobData : Type 0 where
  pub job : Job
  pub template : BlockTemplate
  pub data_coinb1 : List ℕ
  pub data_coinb2 : List ℕ
  pub address_coinb2s : Table (List ℕ)
  pub created : ℕ

pub record JobManager (fl : Floats) : Type 0 where
  pub address : List ℕ
  pub network : List ℕ
  pub coinbase_text : List ℕ
  pub extra_nonce1_size : ℕ
  pub extra_nonce2_size : ℕ
  pub store : List JobData
  pub jobs : Table ℕ
  pub current_tip : List ℕ
  pub tip_changed_at : ℕ
  pub last_clean_job_at : ℕ
  pub last_broadcast_tip : List ℕ
  pub job_counter : ℕ
  pub max_job_history : ℕ
  pub solo_mode : Bool
  -- the map is nil outside solo mode
  pub connected_addrs : Table ℕ
  -- a nil script is `none`
  pub donation_script : Option (List ℕ)
  pub donation_percent : fl.F
  pub donation2_script : Option (List ℕ)
  pub donation2_percent : fl.F
  pub latest_job : Option ℕ
  -- whether there is a callback for Stratum V2, and the job of the last event for it
  pub has_v2 : Bool
  pub latest_job_event : Option ℕ

-- The object that a reference stands for.
abbrev pub deref : List JobData → Option ℕ → Option JobData
deref store none = none
deref store (some ref) = get_elem? store ref

abbrev pub created_at : Option JobData → ℕ
created_at none = 0
created_at (some job) = job.created

-- The key of the oldest entry, the first of several: `a.created.Before(ages[oldestIdx].created)`.
unfoldable pub oldest : List JobData → (List ℕ × ℕ) → Table ℕ → List ℕ × ℕ
oldest store best [] = best
oldest store best (entry ∷ jobs) =
    oldest store
      (if ltb (created_at (get_elem? store (entry.1))) (created_at (get_elem? store (best.1)))
        then entry
        else best)
      jobs

-- `for len(ages) > jm.maxJobHistory`, on fuel: `ages` are the entries of the map, and lose what the
-- map loses.
unfoldable pub prune_loop : ℕ → List JobData → (max : ℕ) → Table ℕ → Table ℕ
prune_loop zero store max jobs = jobs
prune_loop (suc fuel) store max [] = []
prune_loop (suc fuel) store max (entry ∷ jobs) =
    let rest = prune_loop fuel store max (remove ((oldest store entry jobs).0) (entry ∷ jobs)) in
    if ltb max (length (entry ∷ jobs)) then rest else entry ∷ jobs

unfoldable pub prune_jobs : List JobData → (max : ℕ) → Table ℕ → Table ℕ
prune_jobs store max jobs = prune_loop (length jobs) store max jobs

-- The configuration that a manager is made from; the donations are those of the manager.
pub record JobManagerConfig (fl : Floats) : Type 0 where
  pub cfg_address : List ℕ
  pub cfg_network : List ℕ
  pub cfg_coinbase_text : List ℕ
  pub cfg_extra_nonce_size : ℤ
  pub cfg_has_v2 : Bool
  pub cfg_solo_mode : Bool
  pub cfg_donation_script : Option (List ℕ)
  pub cfg_donation_percent : fl.F
  pub cfg_donation2_script : Option (List ℕ)
  pub cfg_donation2_percent : fl.F

-- Four bytes are the first extranonce, and at least two are left for the second.
unfoldable pub en2_size : ℤ → ℕ
en2_size extra_nonce_size =
    let en2 = extra_nonce_size -ℤ pos 4 in if ltb_ℤ en2 (pos 2) then 2 else pos_part en2

module _ (fl : Floats) where
  -- NewJobManager at a time in seconds.
  unfoldable pub new_job_manager : (unix : ℕ) → JobManagerConfig fl → JobManager fl
  new_job_manager unix cfg = record {
    address = cfg.cfg_address;
    network = cfg.cfg_network;
    coinbase_text = cfg.cfg_coinbase_text;
    extra_nonce1_size = 4;
    extra_nonce2_size = en2_size cfg.cfg_extra_nonce_size;
    store = [];
    jobs = [];
    current_tip = [];
    tip_changed_at = 0;
    last_clean_job_at = 0;
    last_broadcast_tip = [];
    job_counter = unix;
    max_job_history = 20;
    solo_mode = cfg.cfg_solo_mode;
    connected_addrs = [];
    donation_script = cfg.cfg_donation_script;
    donation_percent = cfg.cfg_donation_percent;
    donation2_script = cfg.cfg_donation2_script;
    donation2_percent = cfg.cfg_donation2_percent;
    latest_job = none;
    has_v2 = cfg.cfg_has_v2;
    latest_job_event = none;
  }

  -- GetJob.
  unfoldable pub get_job : List ℕ → JobManager fl → Option JobData
  get_job job_id jm = deref jm.store (lookup job_id jm.jobs)

  -- `jm.latestJob`, which LatestTemplate and GetJobForAddress read.
  abbrev pub latest : JobManager fl → Option JobData
  latest jm = deref jm.store jm.latest_job

  abbrev template_of : Option JobData → Option BlockTemplate
  template_of none = none
  template_of (some job) = some job.template

  unfoldable pub latest_template : JobManager fl → Option BlockTemplate
  latest_template jm = template_of (latest jm)

  abbrev with_coinb2 : Job → Option (List ℕ) → Option Job
  with_coinb2 job none = none
  with_coinb2 job (some c2) = some (record job { coinb2 = c2 })

  abbrev job_for : List ℕ → Option JobData → Option Job
  job_for address none = none
  job_for address (some job) = with_coinb2 job.job (lookup address job.address_coinb2s)

  unfoldable pub get_job_for_address : List ℕ → JobManager fl → Option Job
  get_job_for_address address jm = job_for address (latest jm)

  abbrev coinb2_for : List ℕ → Option JobData → Option (List ℕ)
  coinb2_for address none = none
  coinb2_for address (some job) = lookup address job.address_coinb2s

  unfoldable pub get_address_coinb2 : (job_id address : List ℕ) → JobManager fl → Option (List ℕ)
  get_address_coinb2 job_id address jm = coinb2_for address (get_job job_id jm)
