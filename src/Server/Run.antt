-- ===== src/Server/Run.antt =====
-- crates/server/src/server.rs: `zkBoostServer::new` and `zkBoostServer::run`, up to the tasks that
-- they spawn. What the EL, the file system and the listener return is an argument; a panic, or a
-- loop that still retries, is none.
use zkboost.Prelude.{
  Bool, ℕ, ◌*◌, ◌^◌, ◌%◌, ◌==◌, length, List, [], ◌∷◌, map, Text, Result, ok, err, ◌>>=◌, ◌>>◌,
  Option, none, some, if◌then◌else◌,
}
use zkboost.ProofType.{ProofType}
use zkboost.Payload.{Hash256, Bytes}
use zkboost.External.{External}
use zkboost.Lru.{LruCache}
use zkboost.Config.{Config}
use zkboost.Zkvm.{Backends}
use zkboost.Http.{Zkvms}
use zkboost.ElClient
use zkboost.Dashboard.{HistoricalBlock}
use zkboost.Dashboard.Service.{DashboardState, new_state}
use zkboost.Metrics.{Log, set_programs_loaded, set_build_info}
use zkboost.Proof.{Key, ProofService}
use zkboost.Proof
use zkboost.Witness.{WitnessService}
use zkboost.Witness
use zkboost.Server.{Connect, start_zkvms, worker_types}

-- The loop over `get_chain_config`, for the attempts so far.
unfoldable pub fetch_chain_config :
    {C : Type 0} → List (Result ElClient.Error (Option C)) → Option C
fetch_chain_config [] = none
fetch_chain_config (ok (some chain_config) ∷ attempts) = some chain_config
fetch_chain_config (ok none ∷ attempts) = fetch_chain_config attempts
fetch_chain_config (err e ∷ attempts) = fetch_chain_config attempts

-- The chain configuration, from its file or from the EL.
unfoldable pub load_chain_config :
    {C : Type 0}
    → (Text → Result Text Text)
    → (Text → Result Text C)
    → List (Result ElClient.Error (Option C))
    → Option Text
    → Option (Result Text C)
unfolding fetch_chain_config
load_chain_config read_to_string from_str attempts (some path) =
    some (do content ← read_to_string path; from_str content)
load_chain_config read_to_string from_str attempts none = elim (fetch_chain_config attempts) [
  | some chain_config ↦ some (ok chain_config)
  | none ↦ none
]

module _ {x : External} (b : Backends x) where
  pub record ZkBoostServer : Type 0 where
    pub chain_config : x.ChainConfig
    pub zkvms : Zkvms b
    pub config : Config
    -- the calls of `set_programs_loaded` and `set_build_info`
    pub log : Log

  -- The rest of `zkBoostServer::new`, once the chain configuration is loaded.
  unfoldable pub new_server :
      Connect b → Text → Config → Result Text x.ChainConfig → Result Text ZkBoostServer
  unfolding start_zkvms set_programs_loaded set_build_info
  new_server connect version config loaded = do
    chain_config ← loaded
    zkvms ← start_zkvms b connect [] config.zkvm
    ok (record {
      chain_config = chain_config;
      zkvms = zkvms;
      config = config;
      log = set_build_info version (set_programs_loaded (length zkvms) []);
    })

  module _ (proofs : LruCache Key Bytes) (witnesses : LruCache Hash256 x.Witness)
      (blocks : LruCache Hash256 (HistoricalBlock x.Seconds)) where
    -- What `run` starts: the services, the proof types with a worker, and the dashboard's state.
    pub record Running : Type 0 where
      pub proof_cache : proofs.Cache
      pub witness_service : WitnessService x witnesses
      pub worker_inputs : List ProofType
      pub proof_service : ProofService x proofs
      pub dashboard : Option (DashboardState x blocks)

    -- `NonZeroUsize::new(..).expect(..)`.
    abbrev pub with_non_zero {ℓ} : {A : Type ℓ} → ℕ → (ℕ → Option A) → Option A
    with_non_zero n continue = let rest = continue n in if n == 0 then none else rest

    -- `LruCache::new`, whose table may not be had: the server goes on, or panics.
    abbrev pub with_memory {ℓ} : {A : Type ℓ} → Bool → Option A → Option A
    with_memory allocated continue = if allocated then continue else none

    -- The product is one of 64-bit numbers, without the check of a debug build.
    abbrev pub proof_cache_capacity : ZkBoostServer → ℕ
    proof_cache_capacity server = (server.config.proof_cache_size * length server.zkvms) % 2 ^ 64

    -- The dashboard, if it is enabled.
    unfoldable pub start_dashboard :
        Text → ZkBoostServer → Option (Option (DashboardState x blocks))
    start_dashboard version server =
        let started = with_non_zero server.config.dashboard.retention (λ retention.
          with_memory (blocks.allocates retention)
            (some (some (new_state x blocks version (map (λ e. e.0) server.zkvms) retention)))) in
        if server.config.dashboard.enabled then started else some none

    abbrev pub started : ZkBoostServer → ℕ → ℕ → Option (DashboardState x blocks) → Running
    started server capacity witness_cache_size dashboard =
        let cache = proofs.new capacity in
        record {
          proof_cache = cache;
          witness_service = Witness.new_service x witnesses witness_cache_size;
          worker_inputs = worker_types b [] server.zkvms;
          proof_service = Proof.new_service x proofs server.chain_config cache;
          dashboard = dashboard;
        }

    unfoldable pub run :
        Text → ZkBoostServer → Result Text (Unit {0}) → Option (Result Text Running)
    unfolding start_dashboard
    run version server bound = with_non_zero (proof_cache_capacity server) (λ capacity.
        with_memory (proofs.allocates capacity) (
          with_non_zero server.config.witness_cache_size (λ witness_cache_size.
            with_memory (witnesses.allocates witness_cache_size)
              (elim (start_dashboard version server) [
                | none ↦ none
                | some dashboard ↦
                    some (do bound; ok (started server capacity witness_cache_size dashboard))
              ]))))
