-- ===== src/Config.antt =====
-- crates/server/src/config.rs: the configuration of the server and its validation. TOML, URLs and
-- paths are read by other crates; here they are texts.
pub mod Valid
use zkboost.Prelude.{
  ℕ, ◌*◌, ◌^◌, ◌≡◌, List, [], ◌∷◌, Text, Bool, true, false, not, Result, ok, err, ◌>>=◌, ◌>>◌,
  ensure, Option, ltb, leb, is_empty, contains, insert,
}
use zkboost.ProofType.{ProofType, proof_type_dec}

pub data MockProvingTime : Type 0 where
  -- milliseconds
  constant : ℕ → MockProvingTime
  -- smallest and largest time in milliseconds
  random : ℕ → ℕ → MockProvingTime
  -- milliseconds for a million gas
  linear : ℕ → MockProvingTime

pub data ZkvmConfig : Type 0 where
  -- proof type, timeout in seconds, endpoint
  ere : ProofType → ℕ → Text → ZkvmConfig
  -- proof type, timeout in seconds, proving time, proof size, failure
  mock : ProofType → ℕ → MockProvingTime → ℕ → Bool → ZkvmConfig
  -- proof type, URL of the program's verifying key
  verifier : ProofType → Text → ZkvmConfig

abbrev pub config_proof_type : ZkvmConfig → ProofType
config_proof_type (ere p t e) = p
config_proof_type (mock p t m n f) = p
config_proof_type (verifier p u) = p

pub record DashboardConfig : Type 0 where
  pub enabled : Bool
  pub retention : ℕ

pub record Config : Type 0 where
  pub port : ℕ
  pub el_endpoint : Text
  pub chain_config_path : Option Text
  pub witness_timeout_secs : ℕ
  pub proof_cache_size : ℕ
  pub witness_cache_size : ℕ
  pub dashboard : DashboardConfig
  pub zkvm : List ZkvmConfig

-- The values of the fields that a configuration leaves out.
abbrev pub default_port : ℕ
default_port = 3000

abbrev pub default_witness_timeout_secs : ℕ
default_witness_timeout_secs = 12

abbrev pub default_proof_timeout_secs : ℕ
default_proof_timeout_secs = 12

abbrev pub default_proof_cache_size : ℕ
default_proof_cache_size = 128

abbrev pub default_witness_cache_size : ℕ
default_witness_cache_size = 128

abbrev pub default_mock_proof_size : ℕ
default_mock_proof_size = 128 * 2 ^ 10

abbrev pub default_mock_proving_time : MockProvingTime
default_mock_proving_time = constant 6000

abbrev pub default_dashboard_enabled : Bool
default_dashboard_enabled = false

abbrev pub default_dashboard_retention : ℕ
default_dashboard_retention = 256

abbrev pub default_dashboard : DashboardConfig
default_dashboard = record {
  enabled = default_dashboard_enabled;
  retention = default_dashboard_retention;
}

-- The conditions that `validate` ensures, by the one that failed.
pub data ConfigError : Type 0 where
  no_zkvm proof_cache_size_zero witness_cache_size_zero retention_zero : ConfigError
  duplicate_proof_type proof_timeout_zero program_vk_url_empty : ProofType → ConfigError
  mock_proof_size_small : ConfigError
  min_above_max : ℕ → ℕ → ConfigError

-- The `match` on the kind of a zkVM.
unfoldable pub validate_backend : ZkvmConfig → Result ConfigError (Unit {0})
validate_backend (ere p timeout endpoint) = ensure (ltb 0 timeout) (proof_timeout_zero p)
validate_backend (mock p timeout time size failure) = ensure (ltb 0 timeout) (proof_timeout_zero p)
validate_backend (verifier p url) = ensure (not (is_empty url)) (program_vk_url_empty p)

unfoldable pub validate_time : MockProvingTime → Result ConfigError (Unit {0})
validate_time (constant ms) = ok tt
validate_time (random min_ms max_ms) = ensure (leb min_ms max_ms) (min_above_max min_ms max_ms)
validate_time (linear ms_per_mgas) = ok tt

-- `if let zkVMConfig::Mock { .. }`.
unfoldable pub validate_mock : ZkvmConfig → Result ConfigError (Unit {0})
validate_mock (ere p timeout endpoint) = ok tt
validate_mock (mock p timeout time size failure) = do
  ensure (leb 32 size) mock_proof_size_small
  validate_time time
validate_mock (verifier p url) = ok tt

-- The loop over the zkVMs, with the proof types seen so far.
unfoldable pub validate_zkvms : List ProofType → List ZkvmConfig → Result ConfigError (Unit {0})
validate_zkvms seen [] = ok tt
validate_zkvms seen (z ∷ zs) = do
  ensure (not (contains proof_type_dec seen (config_proof_type z)))
      (duplicate_proof_type (config_proof_type z))
  validate_backend z
  validate_mock z
  validate_zkvms (insert proof_type_dec (config_proof_type z) seen) zs

unfoldable pub validate : Config → Result ConfigError (Unit {0})
validate config = do
  ensure (not (is_empty config.zkvm)) no_zkvm
  ensure (ltb 0 config.proof_cache_size) proof_cache_size_zero
  ensure (ltb 0 config.witness_cache_size) witness_cache_size_zero
  ensure (ltb 0 config.dashboard.retention) retention_zero
  validate_zkvms [] config.zkvm

pub data LoadError : Type 0 where
  -- the error of the file system, and that of TOML
  unreadable malformed : Text → LoadError
  invalid : ConfigError → LoadError

abbrev pub or_error {ℓ κ} :
    {A : Type ℓ} {E : Type κ} → (E → LoadError) → Result E A → Result LoadError A
or_error wrap (ok a) = ok a
or_error wrap (err e) = err (wrap e)

-- `Config::load`: the file system and the reading of TOML are parameters.
unfoldable pub load :
    (Text → Result Text Text) → (Text → Result Text Config) → Text → Result LoadError Config
unfolding validate
load read_to_string from_str path = do
  content ← or_error unreadable (read_to_string path)
  config ← or_error malformed (from_str content)
  or_error invalid (validate config)
  ok config
