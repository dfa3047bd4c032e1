-- ===== src/Engine/Jobs/Sessions.antt =====
-- pkg/engine/jobmanager.go: the payout addresses of the connected sessions.
use forgenx_engine.Prelude.{
  ℕ, ◌+◌, ◌-◌, List, [], ◌∷◌, Bool, true, false, Option, none, some, Result, ok, err, leb, ◌==◌,
  if◌then◌else◌, set, get_elem?,
}
use forgenx_engine.Prelude.Table.{Table, lookup, put, remove}
use forgenx_engine.Prelude.Float.{Floats}
use forgenx_engine.Coin.Text.{same_text}
use forgenx_engine.Coin.Errors.{CoinError}
use forgenx_engine.Coin.Interface.{Coin}
use forgenx_engine.Engine.Jobs.{JobData, JobManager}
use forgenx_engine.Engine.Jobs.Refresh.{coinbase_for}

-- `jm.connectedAddrs[address]`, which is 0 for a missing key.
abbrev pub count_of : Option ℕ → ℕ
count_of none = 0
count_of (some n) = n

-- A job gets the second half of its coinbase for an address, and a first half if it had none.
unfoldable pub give_coinb2 : List ℕ → Result CoinError (List ℕ × List ℕ) → JobData → JobData
give_coinb2 address (err e) job_data = job_data
give_coinb2 address (ok (c1, c2)) job_data =
    let given = record job_data { address_coinb2s = put address c2 job_data.address_coinb2s } in
    if same_text job_data.data_coinb1 []
    then record given { data_coinb1 = c1; job = record job_data.job { coinb1 = c1 } }
    else given

abbrev is_some : Option (List ℕ) → Bool
is_some none = false
is_some (some c2) = true

module _ (fl : Floats) (coin : Coin) where
  unfoldable pub serve_address : List ℕ → JobManager fl → JobData → JobData
  serve_address address jm job_data =
      if is_some (lookup address job_data.address_coinb2s)
      then job_data
      else give_coinb2 address (coinbase_for fl coin job_data.template address jm) job_data

  abbrev serve_ref : List ℕ → JobManager fl → ℕ → Option JobData → List JobData → List JobData
  serve_ref address jm ref none store = store
  serve_ref address jm ref (some job_data) store = set store ref (serve_address address jm job_data)

  -- The loop over the map of jobs, which changes the jobs in the store.
  unfoldable pub serve_jobs : List ℕ → JobManager fl → Table ℕ → List JobData → List JobData
  serve_jobs address jm [] store = store
  serve_jobs address jm ((job_id, ref) ∷ jobs) store =
      serve_jobs address jm jobs (serve_ref address jm ref (get_elem? store ref) store)

  -- One more session of an address, which is served if it is the first.
  unfoldable pub count_session : List ℕ → JobManager fl → JobManager fl
  count_session address jm =
      let count = count_of (lookup address jm.connected_addrs) + 1 in
      let jm₁ = record jm { connected_addrs = put address count jm.connected_addrs } in
      if count == 1 then record jm₁ { store = serve_jobs address jm₁ jm₁.jobs jm₁.store } else jm₁

  -- Outside solo mode the map of addresses is nil, and `none` is the panic of the write to it.
  unfoldable pub register_address : List ℕ → JobManager fl → Option (JobManager fl)
  register_address address jm = if jm.solo_mode then some (count_session address jm) else none

  abbrev pub drop_session : List ℕ → Option ℕ → Table ℕ → Table ℕ
  drop_session address none addrs = addrs
  drop_session address (some count) addrs =
      if leb count 1 then remove address addrs else put address (count - 1) addrs

  unfoldable pub unregister_address : List ℕ → JobManager fl → JobManager fl
  unregister_address address jm = if same_text address [] then jm else record jm {
    connected_addrs = drop_session address (lookup address jm.connected_addrs) jm.connected_addrs;
  }
