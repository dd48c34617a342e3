-- ===== src/Tests/Startup.antt =====
-- crates/server/src/config.rs and server.rs: a configuration, and the server that it starts.
use zkboost.Prelude.{
  none, some, ℕ, ℕ_discrete, arith, ◌≡◌, refl, ◌↔◌, [], ◌∷◌, text, true, false, ok, get, is_some,
  bit, contains, insert, insert_entry, All,
}
use zkboost.ProofType.{el_kind, ProofType, reth_zisk, reth_sp1, ethrex_zisk, proof_type_dec}
use zkboost.Config.{
  load, Config, ZkvmConfig, linear, validate, validate_zkvms, validate_backend, validate_mock,
  validate_time,
}
use zkboost.Config.Valid.{IsValid, backends, config_for, validate-eq-ok_iff}
use zkboost.Http.{Zkvms}
use zkboost.Server.{
  verifier_from_url, download_program_vk, key_path, strip_prefix, has_text, start_zkvms,
  new_instance, new_mock, assert_range, worker_types,
}
use zkboost.Server.Start.{
  IsKeyed, IsConfigured, Connects, start_zkvms-IsConfigured, start_zkvms_total,
}
use zkboost.Server.Run.{ZkBoostServer, Running, new_server, run}
use zkboost.Server.Running.{IsRunning, run-IsRunning}
use zkboost.Metrics.{set_build_info, set_programs_loaded}
use zkboost.Lru.{LruCache}
use zkboost.Lru.Recent.{recent_cache}
use zkboost.Payload.{Hash256}
use zkboost.Tests.World.{proof_lru}
use zkboost.Tests.Dashboard.{block_lru}
use zkboost.Server.Workers.{IsAcceptable-worker_types}
use zkboost.Tests.Machines.{machines, connect, zkvms}
use zkboost.Tests.Http.{acceptable}

abbrev config : Config
config = record {
  port = 3000;
  el_endpoint = text "http://el";
  chain_config_path = none;
  witness_timeout_secs = 12;
  proof_cache_size = 128;
  witness_cache_size = 128;
  dashboard = record { enabled = true; retention = 64 };
  zkvm =
      ZkvmConfig.ere reth_zisk 12 (text "http://prover")
      ∷ ZkvmConfig.mock reth_sp1 12 (linear 100) 40 false
      ∷ ZkvmConfig.verifier ethrex_zisk (text "http://key")
      ∷ [];
}

validate-eq-ok_iff_example : (validate config ≡ ok tt) ↔ IsValid config
validate-eq-ok_iff_example = validate-eq-ok_iff config

program : Unit {0}
unfolding proof_type_dec el_kind insert insert_entry strip_prefix has_text key_path
    download_program_vk verifier_from_url validate validate_zkvms validate_backend validate_mock
    validate_time start_zkvms new_instance new_mock assert_range worker_types
program = tt

start_zkvms-IsConfigured_example :
    IsKeyed machines zkvms
    × ((p : ProofType)
        → (bit (is_some (get proof_type_dec zkvms p)) ≡ backends p config.zkvm)
          × IsConfigured machines connect (config_for p config.zkvm) (get proof_type_dec zkvms p))
unfolding program
start_zkvms-IsConfigured_example = start_zkvms-IsConfigured machines connect config zkvms refl refl

-- The endpoint that is configured has a client, and the configured key can be read.
connects : All (Connects machines connect) config.zkvm
unfolding program
connects = ((text "http://prover", refl), (tt, ((text "verifier", refl), tt)))

start_zkvms_total_example :
    (found : Zkvms machines) × (start_zkvms machines connect [] config.zkvm ≡ ok found)
unfolding program
start_zkvms_total_example = start_zkvms_total machines connect config refl connects

IsAcceptable-worker_types_example :
    All
      (λ p. contains proof_type_dec (worker_types machines [] zkvms) p ≡ true)
      (reth_zisk ∷ reth_sp1 ∷ [])
unfolding program
IsAcceptable-worker_types_example =
    IsAcceptable-worker_types machines connect config.zkvm zkvms (reth_zisk ∷ reth_sp1 ∷ []) refl
      acceptable

abbrev witness_lru : LruCache Hash256 ℕ
witness_lru = recent_cache ℕ_discrete

abbrev server : ZkBoostServer machines
server = record {
  chain_config = 0;
  zkvms = zkvms;
  config = config;
  log = set_build_info (text "0.1.0") (set_programs_loaded 3 []);
}

run-IsRunning_example :
    (running : Running machines proof_lru witness_lru block_lru) × (run machines proof_lru
        witness_lru block_lru
        (text "0.1.0")
        server
        (ok tt)
      ≡ some (ok running))
    × IsRunning machines proof_lru witness_lru block_lru server running
unfolding program load new_server
run-IsRunning_example =
    run-IsRunning machines connect proof_lru witness_lru block_lru (λ path. ok path)
      (λ content. ok config) (text "zkboost.toml") config (text "0.1.0") 0 server refl refl
      (omega arith) (record { proofs_memory = refl; witnesses_memory = refl; blocks_memory = refl })
