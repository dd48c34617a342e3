-- ===== src/Config/Valid.antt =====
-- crates/server/src/config.rs: which configurations `validate` accepts.
use zkboost.Prelude.{
  Bool, false, Option, none, some, ℕ, ◌+◌, ◌≤◌, ◌<◌, ◌≡◌, refl, ◌≢◌, ◌↔◌, arith, List, [], ◌∷◌,
  true, false, not, ok, ensure, contains, insert, contains-insert, >>-eq-ok, ensure-eq-ok, bit, ite,
  is_empty, lt→ltb, ltb→lt, ltb, All,
}
use zkboost.ProofType.{ProofType, proof_type_dec}
use zkboost.Config.{
  MockProvingTime, constant, random, linear, ZkvmConfig, ere, mock, verifier, config_proof_type,
  Config, ConfigError, duplicate_proof_type, no_zkvm, proof_cache_size_zero,
  witness_cache_size_zero, retention_zero, validate_backend, validate_time, validate_mock,
  validate_zkvms, validate,
}

abbrev pub IsValidTime : MockProvingTime → Type 0
IsValidTime (constant ms) = Unit
IsValidTime (random min_ms max_ms) = min_ms ≤ max_ms
IsValidTime (linear ms_per_mgas) = Unit

-- A backend that can be started: a prover has time, a mock proof holds a hash, and a verifier
-- knows where its key is.
abbrev pub IsValidZkvm : ZkvmConfig → Type 0
IsValidZkvm (ere p timeout endpoint) = 0 < timeout
IsValidZkvm (mock p timeout time size failure) = (0 < timeout) × (32 ≤ size) × IsValidTime time
IsValidZkvm (verifier p url) = url ≢ []

-- How many backends prove or verify a proof type.
abbrev pub backends : ProofType → List ZkvmConfig → ℕ
backends p [] = 0
backends p (z ∷ zs) = ite (proof_type_dec (config_proof_type z) p) 1 0 + backends p zs

-- The backend of a proof type: the first of them.
abbrev pub config_for : ProofType → List ZkvmConfig → Option ZkvmConfig
config_for p [] = none
config_for p (z ∷ zs) = ite (proof_type_dec (config_proof_type z) p) (some z) (config_for p zs)

-- Whether there is a backend, and it proves.
abbrev pub proves : Option ZkvmConfig → Bool
proves none = false
proves (some (ere p timeout endpoint)) = true
proves (some (mock p timeout time size failure)) = true
proves (some (verifier p url)) = false

pub record IsValid (config : Config) : Type 0 where
  pub some_zkvm : config.zkvm ≢ []
  pub proof_cache : 0 < config.proof_cache_size
  pub witness_cache : 0 < config.witness_cache_size
  pub retention : 0 < config.dashboard.retention
  pub each : All IsValidZkvm config.zkvm
  pub distinct : (p : ProofType) → backends p config.zkvm ≤ 1

validate_one_iff :
    (z : ZkvmConfig) → ((validate_backend z ≡ ok tt) × (validate_mock z ≡ ok tt)) ↔ IsValidZkvm z
unfolding validate_backend validate_mock validate_time
validate_one_iff (ere p timeout endpoint) = ground arith
validate_one_iff (mock p timeout (constant ms) size failure) = ground arith
validate_one_iff (mock p timeout (random a b) size failure) = ground arith
validate_one_iff (mock p timeout (linear ms) size failure) = ground arith
validate_one_iff (verifier p []) = ground arith
validate_one_iff (verifier p (c ∷ url)) = ground arith

validate_zkvms-ok :
    (seen : List ProofType) (zs : List ZkvmConfig)
    → validate_zkvms seen zs ≡ ok tt
    → All IsValidZkvm zs
      × ((p : ProofType) → bit (contains proof_type_dec seen p) + backends p zs ≤ 1)
unfolding validate_zkvms
validate_zkvms-ok seen [] h = (tt, λ p. ground arith)
validate_zkvms-ok seen (z ∷ zs) h =
    let (fresh, h') = >>-eq-ok _ _ h in
    let (backend, h'') = >>-eq-ok _ _ h' in
    let (size, rest) = >>-eq-ok _ _ h'' in
    let (valid, distinct) =
      validate_zkvms-ok (insert proof_type_dec (config_proof_type z) seen) zs rest in
    let new =
      ensure-eq-ok (not (contains proof_type_dec seen (config_proof_type z)))
        (duplicate_proof_type (config_proof_type z)) fresh in
    (
      ((validate_one_iff z).0 (backend, size), valid),
      λ p.
          ground
            (arith, contains-insert proof_type_dec (config_proof_type z) p seen, distinct p, new),
    )

not-contains :
    (seen : List ProofType) (p : ProofType) (n : ℕ)
    → bit (contains proof_type_dec seen p) + (ite (proof_type_dec p p) 1 0 + n) ≤ 1
    → contains proof_type_dec seen p ≡ false
not-contains seen p n h = ground arith

validate_zkvms_valid :
    (seen : List ProofType) (zs : List ZkvmConfig)
    → All IsValidZkvm zs
    → ((p : ProofType) → bit (contains proof_type_dec seen p) + backends p zs ≤ 1)
    → validate_zkvms seen zs ≡ ok tt
unfolding validate_zkvms
validate_zkvms_valid seen [] v d = refl
validate_zkvms_valid seen (z ∷ zs) v d =
    let (backend, size) = (validate_one_iff z).1 v.0 in
    let new = not-contains seen (config_proof_type z) _ (d (config_proof_type z)) in
    rw (new, backend, size)
      (validate_zkvms_valid (insert proof_type_dec (config_proof_type z) seen) zs v.1 (λ p.
        ground (arith, contains-insert proof_type_dec (config_proof_type z) p seen, d p, new)))

above_zero : (n : ℕ) (e : ConfigError) → ensure (ltb 0 n) e ≡ ok tt → 0 < n
above_zero n e h = ltb→lt 0 n (ensure-eq-ok (ltb 0 n) e h)

is_empty-ne-nil : (zs : List ZkvmConfig) → not (is_empty zs) ≡ true → zs ≢ []
is_empty-ne-nil [] h = cc
is_empty-ne-nil (z ∷ zs) h = λ e. cc

ne_nil-is_empty : (zs : List ZkvmConfig) → zs ≢ [] → is_empty zs ≡ false
ne_nil-is_empty [] h = absurd (h refl)
ne_nil-is_empty (z ∷ zs) h = refl

-- A configuration is accepted exactly if there is a backend, the sizes of the caches and of the
-- dashboard's history are not zero, each backend is valid, and no proof type has two backends.
pub validate-eq-ok_iff : (config : Config) → (validate config ≡ ok tt) ↔ IsValid config
unfolding validate
validate-eq-ok_iff config = (accepted, valid)
  where
    accepted : validate config ≡ ok tt → IsValid config
    accepted h =
        let (zkvm, h₁) = >>-eq-ok _ _ h in
        let (proof_cache, h₂) = >>-eq-ok _ _ h₁ in
        let (witness_cache, h₃) = >>-eq-ok _ _ h₂ in
        let (retention, h₄) = >>-eq-ok _ _ h₃ in
        let (each, distinct) = validate_zkvms-ok [] config.zkvm h₄ in
        record {
          some_zkvm =
              is_empty-ne-nil config.zkvm (ensure-eq-ok (not (is_empty config.zkvm)) no_zkvm zkvm);
          proof_cache = above_zero config.proof_cache_size proof_cache_size_zero proof_cache;
          witness_cache =
              above_zero config.witness_cache_size witness_cache_size_zero witness_cache;
          retention = above_zero config.dashboard.retention retention_zero retention;
          each = each;
          distinct = λ p. omega (arith, distinct p);
        }

    valid : IsValid config → validate config ≡ ok tt
    valid v =
        rw
          (
            ne_nil-is_empty config.zkvm v.some_zkvm,
            lt→ltb 0 config.proof_cache_size v.proof_cache,
            lt→ltb 0 config.witness_cache_size v.witness_cache,
            lt→ltb 0 config.dashboard.retention v.retention,
          )
          (validate_zkvms_valid [] config.zkvm v.each (λ p. omega (arith, v.distinct p)))
