-- ===== src/Server/Running.antt =====
-- crates/server/src/config.rs, server.rs: a configuration that is loaded starts a server that runs.
use zkboost.Prelude.{
  true, contains, ℕ, ◌*◌, ◌^◌, ◌<◌, ◌≡◌, ◌≢◌, refl, ap, sym, ◌∙◌, arith, ◌==◌, length, List, [],
  ◌∷◌, map, Text, false, Result, ok, err, >>=-eq-ok, >>-eq-ok', Option, none, some, is_some, bit,
  get, Bool-cases, inl, inr, if_pos, ite, subst,
}
use native.Mathlib.Nat.{mul-pos}
use zkboost.ProofType.{ProofType, proof_type_dec}
use zkboost.Payload.{Hash256, Bytes}
use zkboost.External.{External}
use zkboost.Lru.{LruCache}
use zkboost.Config.{
  Config, ConfigError, unreadable, malformed, invalid, or_error, validate, load, ZkvmConfig,
  config_proof_type,
}
use zkboost.Config.Valid.{config_for, proves, IsValid, validate-eq-ok_iff, backends}
use zkboost.Zkvm.{Backends}
use zkboost.Witness
use zkboost.Proof.{Key}
use zkboost.Http.{Zkvms}
use zkboost.Dashboard.{HistoricalBlock}
use zkboost.Dashboard.Service.{DashboardState, new_state}
use zkboost.Server.{Connect, start_zkvms, worker_types}
use zkboost.Server.Start.{start_zkvms-IsConfigured}
use zkboost.Server.Workers.{start-worker_types}
use zkboost.Server.Run.{
  started, ZkBoostServer, Running, new_server, run, start_dashboard, proof_cache_capacity,
}

ok-injective : {A : Type 0} {a b : A} → ◌≡◌ {A = Result Text A} (ok a) (ok b) → a ≡ b
ok-injective h = cc

or_error-eq-ok : (m : Result ConfigError (Unit {0})) → or_error invalid m ≡ ok tt → m ≡ ok tt
or_error-eq-ok (ok u) h = refl
or_error-eq-ok (err e) h = absurd (cc)

-- A configuration that is loaded has passed validation.
load-validate :
    (read_to_string : Text → Result Text Text) (from_str : Text → Result Text Config) (path : Text)
    (config : Config)
    → load read_to_string from_str path ≡ ok config
    → validate config ≡ ok tt
unfolding load
load-validate read_to_string from_str path config h =
    let (content, e, h') = >>=-eq-ok (or_error unreadable (read_to_string path)) _ h in
    let (read, f, h'') = >>=-eq-ok (or_error malformed (from_str content)) _ h' in
    let (valid, same) = >>-eq-ok' (or_error invalid (validate read)) (ok read) h'' in
    let same' : read ≡ config = cc in ap validate (sym same') ∙ or_error-eq-ok (validate read) valid

non_zero : (n : ℕ) → 0 < n → (n == 0) ≡ false
non_zero n h = ground arith

product_positive : (m n : ℕ) → 0 < m → 0 < n → 0 < m * n
product_positive m n h k = mul-pos h k

module _ {x : External} (b : Backends x) (proofs : LruCache Key Bytes)
    (witnesses : LruCache Hash256 x.Witness)
    (blocks : LruCache Hash256 (HistoricalBlock x.Seconds)) where
  -- What runs after the start of a server.
  pub record IsRunning (server : ZkBoostServer b) (running : Running b proofs witnesses blocks)
      : Type 0 where
    pub capacity :
        proofs.cap running.proof_cache ≡ server.config.proof_cache_size * length server.zkvms
    pub witness_capacity :
        witnesses.cap running.witness_service.witness_cache ≡ server.config.witness_cache_size
    pub workers :
        (p : ProofType)
        → contains proof_type_dec running.worker_inputs p ≡ proves (config_for p server.config.zkvm)
    pub dashboard : is_some running.dashboard ≡ server.config.dashboard.enabled

module _ {x : External} (b : Backends x) (connect : Connect b) where
  -- A valid configuration has a backend, so that the server has an instance.
  instances_positive :
      (config : Config) (zkvms : Zkvms b)
      → validate config ≡ ok tt
      → start_zkvms b connect [] config.zkvm ≡ ok zkvms
      → 0 < length zkvms
  instances_positive config zkvms v h =
      let each = λ (p : ProofType). ((start_zkvms-IsConfigured b connect config zkvms v h).1 p).0 in
      positive config.zkvm zkvms ((validate-eq-ok_iff config).0 v).some_zkvm each
    where
      positive :
          (configs : List ZkvmConfig) (found : Zkvms b)
          → configs ≢ []
          → ((p : ProofType) → bit (is_some (get proof_type_dec found p)) ≡ backends p configs)
          → 0 < length found
      positive [] found some_zkvm each = absurd (some_zkvm refl)
      positive (z ∷ zs) (e ∷ found) some_zkvm each = omega arith
      positive (z ∷ zs) [] some_zkvm each =
          let one : ◌≡◌ {A = ℕ}
              (ite (proof_type_dec (config_proof_type z) (config_proof_type z)) 1 0) 1 =
            if_pos (proof_type_dec (config_proof_type z) (config_proof_type z)) refl 1 0 in
          absurd (omega (arith, each (config_proof_type z), one))

  module _ (proofs : LruCache Key Bytes) (witnesses : LruCache Hash256 x.Witness)
      (blocks : LruCache Hash256 (HistoricalBlock x.Seconds)) where
    -- The tables of the three caches can be allocated, for so many instances.
    pub record HasMemory (config : Config) (instances : ℕ) : Type 0 where
      pub proofs_memory : proofs.allocates (config.proof_cache_size * instances) ≡ true
      pub witnesses_memory : witnesses.allocates config.witness_cache_size ≡ true
      pub blocks_memory : blocks.allocates config.dashboard.retention ≡ true

    start_dashboard-enabled :
        (version : Text) (server : ZkBoostServer b)
        → 0 < server.config.dashboard.retention
        → blocks.allocates server.config.dashboard.retention ≡ true
        → (d : Option (DashboardState x blocks)) × (start_dashboard b proofs witnesses blocks
              version server
            ≡ some d)
          × (is_some d ≡ server.config.dashboard.enabled)
    unfolding start_dashboard
    start_dashboard-enabled version server h memory =
        elim (Bool-cases server.config.dashboard.enabled) [
          | inl e ↦ (
            some (
                new_state x blocks version (map (λ z. z.0) server.zkvms)
                  server.config.dashboard.retention),
            rw (start_dashboard, e, non_zero server.config.dashboard.retention h, memory) refl,
            sym e,
          )
          | inr e ↦ (none, rw (start_dashboard, e) refl, sym e)
        ]

    runs :
        (version : Text) (server : ZkBoostServer b)
        → IsValid server.config
        → 0 < length server.zkvms
        → server.config.proof_cache_size * length server.zkvms < 2 ^ 64
        → HasMemory server.config (length server.zkvms)
        → ((p : ProofType)
            → contains proof_type_dec (worker_types b [] server.zkvms) p
              ≡ proves (config_for p server.config.zkvm))
        → (running : Running b proofs witnesses blocks) × (run b proofs witnesses blocks version
              server
              (ok tt)
            ≡ some (ok running))
          × IsRunning b proofs witnesses blocks server running
    unfolding run Witness.new_service
    runs version server valid some_zkvm fits memory workers =
        let capacity = server.config.proof_cache_size * length server.zkvms in
        let whole : proof_cache_capacity b proofs witnesses blocks server ≡ capacity =
          omega arith in
        let (d, dashboard_started, enabled) =
          start_dashboard-enabled version server valid.retention memory.blocks_memory in
        (
          started b proofs witnesses blocks server
              (proof_cache_capacity b proofs witnesses blocks server)
              server.config.witness_cache_size d,
          rw
              (
                run,
                non_zero (proof_cache_capacity b proofs witnesses blocks server) (
                    subst (λ n. 0 < n) (sym whole)
                      (product_positive _ _ valid.proof_cache some_zkvm)),
                ap proofs.allocates whole ∙ memory.proofs_memory,
                non_zero server.config.witness_cache_size valid.witness_cache,
                memory.witnesses_memory,
                dashboard_started,
              )
              refl,
          record {
            capacity = proofs.cap-new _ ∙ whole;
            witness_capacity = witnesses.cap-new _;
            workers = workers;
            dashboard = enabled;
          },
        )

    -- A server of a loaded configuration runs, if the listener binds, the capacity of the proof
    -- cache fits 64 bits and the tables of the caches can be allocated: the caches have room for
    -- `proof_cache_size` proofs of each backend and for `witness_cache_size` witnesses, the proof
    -- types with a worker are those with a backend that proves, and there is a dashboard exactly if
    -- it is enabled.
    pub run-IsRunning :
        (read_to_string : Text → Result Text Text) (from_str : Text → Result Text Config)
        (path : Text) (config : Config) (version : Text) (chain_config : x.ChainConfig)
        (server : ZkBoostServer b)
        → load read_to_string from_str path ≡ ok config
        → new_server b connect version config (ok chain_config) ≡ ok server
        → config.proof_cache_size * length server.zkvms < 2 ^ 64
        → HasMemory config (length server.zkvms)
        → (running : Running b proofs witnesses blocks) × (run b proofs witnesses blocks version
              server
              (ok tt)
            ≡ some (ok running))
          × IsRunning b proofs witnesses blocks server running
    unfolding new_server
    run-IsRunning read_to_string from_str path config version chain_config server loaded h fits
          memory =
        let passed = load-validate read_to_string from_str path config loaded in
        let (zkvms, e, h') = >>=-eq-ok (start_zkvms b connect [] config.zkvm) _ h in
        let same : server.config ≡ config = ap (λ s. s.config) (ok-injective (sym h')) in
        let same_zkvms : server.zkvms ≡ zkvms = ap (λ s. s.zkvms) (ok-injective (sym h')) in
        runs version server (subst IsValid (sym same) ((validate-eq-ok_iff config).0 passed))
          (subst (λ z. 0 < length z) (sym same_zkvms) (instances_positive config zkvms passed e))
          (subst (λ (c : Config). c.proof_cache_size * length server.zkvms < 2 ^ 64) (sym same)
            fits)
          (subst (λ (c : Config). HasMemory c (length server.zkvms)) (sym same) memory)
          λ p.
            subst
              (λ (c : Config).
                contains proof_type_dec (worker_types b [] server.zkvms) p
                ≡ proves (config_for p c.zkvm))
              (sym same)
              (subst
                (λ z.
                  contains proof_type_dec (worker_types b [] z) p
                  ≡ proves (config_for p config.zkvm))
                (sym same_zkvms) (start-worker_types b connect config zkvms p passed e))
