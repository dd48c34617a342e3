-- ===== src/Server/Start.antt =====
-- crates/server/src/server.rs: the instances that a server has after its start.
use zkboost.Prelude.{
  Result, Option, none, some, ite, sym, ◌∙◌, ◌>>◌, >>-eq-ok', ensure, leb, text, subst, ℕ, ◌+◌, ◌≤◌,
  ◌≡◌, refl, ap, arith, if_pos, if_neg, List, [], ◌∷◌, Text, ok, >>=-eq-ok, Bool, bit, is_some, get,
  insert_entry, get-insert_entry, All,
}
use zkboost.ProofType.{ProofType, ElKind, zkvm_kind, el_kind, proof_type_dec}
use zkboost.External.{External}
use zkboost.Config.{
  MockProvingTime, ZkvmConfig, ere, mock, verifier, constant, random, linear, config_proof_type,
  Config, validate,
}
use zkboost.Config.Valid.{IsValidTime, backends, config_for, IsValidZkvm, validate-eq-ok_iff}
use zkboost.Zkvm.{Backends, MockZkvm, ZkvmInstance, instance_proof_type}
use zkboost.Zkvm.Verify.{le→leb}
use zkboost.Http.{Zkvms}
use zkboost.Payload.{Bytes}
use zkboost.Server.{
  verifier_from_url, download_program_vk, Connect, assert_range, new_mock, new_instance,
  start_zkvms,
}

pub ok-injective : {A : Type 0} {a b : A} → ◌≡◌ {A = Result Text A} (ok a) (ok b) → a ≡ b
ok-injective h = cc

abbrev pub mock_of : ElKind → MockProvingTime → ℕ → Bool → MockZkvm
mock_of kind time size failure = record {
  el_kind = kind;
  mock_proving_time = time;
  mock_proof_size = size;
  failure = failure;
}

module _ {x : External} (b : Backends x) where
  -- The instance of each entry is one for the proof type that it stands under.
  abbrev pub IsKeyed : Zkvms b → Type 0
  IsKeyed zkvms = All (λ e. instance_proof_type b e.1 ≡ e.0) zkvms

  insert_entry-IsKeyed :
      (p : ProofType) (zkvm : ZkvmInstance b) (zkvms : Zkvms b)
      → instance_proof_type b zkvm ≡ p
      → IsKeyed zkvms
      → IsKeyed (insert_entry proof_type_dec p zkvm zkvms)
  unfolding insert_entry
  insert_entry-IsKeyed p zkvm [] e h = (e, tt)
  insert_entry-IsKeyed p zkvm ((q, z) ∷ zkvms) e h = elim (proof_type_dec q p) [
    | yes same ↦ rw (if_pos _ same) (e, h.1)
    | no other ↦ rw (if_neg _ other) (h.0, insert_entry-IsKeyed p zkvm zkvms e h.1)
  ]

  module _ (connect : Connect b) where
    -- The instance that a configuration is for: the prover's client is that of the endpoint, the
    -- mock has the configured values, and the verifier is made of the key that the URL gives.
    abbrev pub IsInstanceOf : ZkvmConfig → ZkvmInstance b → Type 0
    IsInstanceOf (ere p timeout endpoint) (ZkvmInstance.ere q t client) =
        (q ≡ p) × (t ≡ timeout) × (connect.new_client endpoint ≡ ok client)
    IsInstanceOf (mock p timeout time size failure) (ZkvmInstance.mock q t vm) =
        (q ≡ p) × (t ≡ timeout) × (vm ≡ mock_of (el_kind p) time size failure)
    IsInstanceOf (verifier p url) (ZkvmInstance.verifier q v) =
        (q ≡ p)
        × ((key : Bytes) × (download_program_vk b connect url ≡ ok key)
            × (connect.new_verifier (zkvm_kind p) key ≡ ok v))
    IsInstanceOf _ _ = ⊥

    -- No instance where there is no configuration, or the one that the configuration is for.
    abbrev pub IsConfigured : Option ZkvmConfig → Option (ZkvmInstance b) → Type 0
    IsConfigured none none = Unit
    IsConfigured (some config) (some zkvm) = IsInstanceOf config zkvm
    IsConfigured _ _ = ⊥

    new_instance-IsInstanceOf :
        (config : ZkvmConfig) (zkvm : ZkvmInstance b)
        → new_instance b connect config ≡ ok zkvm
        → IsInstanceOf config zkvm
    unfolding new_instance new_mock verifier_from_url
    new_instance-IsInstanceOf (ere p t endpoint) zkvm h =
        let (c, e, h') = >>=-eq-ok (connect.new_client endpoint) _ h in
        subst (IsInstanceOf (ere p t endpoint)) (ok-injective h') (refl, refl, e)
    new_instance-IsInstanceOf (mock p t time size failure) zkvm h =
        let (vm, e, h') = >>=-eq-ok (new_mock (el_kind p) time size failure) _ h in
        let checked =
          >>-eq-ok' (ensure (leb 32 size) (text "assertion failed: mock_proof_size >= 32"))
            (do assert_range time; ok (mock_of (el_kind p) time size failure)) e in
        let made =
          >>-eq-ok' (assert_range time) (ok (mock_of (el_kind p) time size failure)) checked.1 in
        subst (IsInstanceOf (mock p t time size failure)) (ok-injective h')
          (refl, refl, sym (ok-injective made.1))
    new_instance-IsInstanceOf (verifier p url) zkvm h =
        let (v, e, h') = >>=-eq-ok (verifier_from_url b connect p url) _ h in
        let (key, d, made) = >>=-eq-ok (download_program_vk b connect url) _ e in
        subst (IsInstanceOf (verifier p url)) (ok-injective h') (refl, (key, d, made))

    start_keep :
        (zkvms found : Zkvms b) (configs : List ZkvmConfig) (p : ProofType)
        → start_zkvms b connect zkvms configs ≡ ok found
        → backends p configs ≡ 0
        → get proof_type_dec found p ≡ get proof_type_dec zkvms p
    unfolding start_zkvms
    start_keep zkvms found [] p h n = ap (λ m. get proof_type_dec m p) (sym (ok-injective h))
    start_keep zkvms found (config ∷ configs) p h n =
        let (zkvm, e, h') = >>=-eq-ok (new_instance b connect config) _ h in
        let q = config_proof_type config in
        let rest = start_keep (insert_entry proof_type_dec q zkvm zkvms) found configs p h' in
        ground (arith, rest, get-insert_entry proof_type_dec q p zkvm zkvms)

    start-IsConfigured :
        (zkvms found : Zkvms b) (configs : List ZkvmConfig) (p : ProofType)
        → start_zkvms b connect zkvms configs ≡ ok found
        → backends p configs ≤ 1
        → get proof_type_dec zkvms p ≡ none
        → IsConfigured (config_for p configs) (get proof_type_dec found p)
    unfolding start_zkvms
    start-IsConfigured zkvms found [] p h u absent =
        subst (λ m. IsConfigured none (get proof_type_dec m p)) (ok-injective h) (rw absent tt)
    start-IsConfigured zkvms found (config ∷ configs) p h u absent =
        let (zkvm, e, h') = >>=-eq-ok (new_instance b connect config) _ h in
        let q = config_proof_type config in
        let zkvms' = insert_entry proof_type_dec q zkvm zkvms in
        let inserted = get-insert_entry proof_type_dec q p zkvm zkvms in
        elim (proof_type_dec q p) [
          | yes same ↦
              let one : ◌≡◌ {A = ℕ} (ite (proof_type_dec q p) 1 0) 1 =
                if_pos (proof_type_dec q p) same 1 0 in
              rw
                (
                  if_pos _ same,
                  start_keep zkvms' found configs p h' (omega (arith, one)),
                  inserted,
                  if_pos _ same,
                )
                (new_instance-IsInstanceOf config zkvm e)
          | no other ↦
              let zero : ◌≡◌ {A = ℕ} (ite (proof_type_dec q p) 1 0) 0 =
                if_neg (proof_type_dec q p) other 1 0 in
              rw (if_neg _ other) (
                start-IsConfigured zkvms' found configs p h' (omega (arith, zero))
                  (inserted ∙ if_neg (proof_type_dec q p) other _ _ ∙ absent))
        ]

    new_instance-proof_type :
        (config : ZkvmConfig) (zkvm : ZkvmInstance b)
        → new_instance b connect config ≡ ok zkvm
        → instance_proof_type b zkvm ≡ config_proof_type config
    unfolding new_instance
    new_instance-proof_type (ere p t endpoint) zkvm h =
        let (c, e, h') = >>=-eq-ok (connect.new_client endpoint) _ h in cc
    new_instance-proof_type (mock p t time size failure) zkvm h =
        let (vm, e, h') = >>=-eq-ok (new_mock _ time size failure) _ h in cc
    new_instance-proof_type (verifier p url) zkvm h =
        let (v, e, h') = >>=-eq-ok (verifier_from_url b connect p url) _ h in cc

    pub started :
        (zkvms found : Zkvms b) (configs : List ZkvmConfig)
        → start_zkvms b connect zkvms configs ≡ ok found
        → IsKeyed zkvms
        → IsKeyed found
          × ((p : ProofType)
              → bit (is_some (get proof_type_dec zkvms p)) + backends p configs ≤ 1
              → bit (is_some (get proof_type_dec found p))
                ≡ bit (is_some (get proof_type_dec zkvms p)) + backends p configs)
    unfolding start_zkvms
    started zkvms found [] h keyed =
        let e : zkvms ≡ found = cc in
        (
          subst IsKeyed e keyed,
          λ p u. omega (arith, ap (λ m. bit (is_some (get proof_type_dec m p))) e),
        )
    started zkvms found (config ∷ configs) h keyed =
        let (zkvm, e, h') = >>=-eq-ok (new_instance b connect config) _ h in
        let p = config_proof_type config in
        let keyed' =
          insert_entry-IsKeyed p zkvm zkvms (new_instance-proof_type config zkvm e) keyed in
        let (keyed'', each) =
          started (insert_entry proof_type_dec p zkvm zkvms) found configs h' keyed' in
        (keyed'', λ q u. ground (arith, each q, get-insert_entry proof_type_dec p q zkvm zkvms))

    -- Starting a configuration that passed validation gives each proof type the instance that its
    -- one backend in the configuration is for, or none if it has no backend, and each instance
    -- stands under its own proof type.
    pub start_zkvms-IsConfigured :
        (config : Config) (zkvms : Zkvms b)
        → validate config ≡ ok tt
        → start_zkvms b connect [] config.zkvm ≡ ok zkvms
        → IsKeyed zkvms
          × ((p : ProofType)
              → (bit (is_some (get proof_type_dec zkvms p)) ≡ backends p config.zkvm)
                × IsConfigured (config_for p config.zkvm) (get proof_type_dec zkvms p))
    start_zkvms-IsConfigured config zkvms v h =
        let (keyed, each) = started [] zkvms config.zkvm h tt in
        let valid = (validate-eq-ok_iff config).0 v in
        (
          keyed,
          λ p. (
            omega (arith, each p (omega (arith, valid.distinct p))),
            start-IsConfigured [] zkvms config.zkvm p h (valid.distinct p) refl,
          ),
        )

    -- The client of the endpoint can be made, and the verifying key can be read.
    abbrev pub Connects : ZkvmConfig → Type 0
    Connects (ere p t endpoint) = (c : b.Client) × (connect.new_client endpoint ≡ ok c)
    Connects (mock p t time size failure) = Unit
    Connects (verifier p url) = (v : b.Verifier) × (verifier_from_url b connect p url ≡ ok v)

    range_ok : (time : MockProvingTime) → IsValidTime time → assert_range time ≡ ok tt
    unfolding assert_range
    range_ok (constant ms) v = refl
    range_ok (random lo hi) v = rw (le→leb lo hi v) refl
    range_ok (linear ms) v = refl

    new_instance_ok :
        (config : ZkvmConfig)
        → Connects config
        → IsValidZkvm config
        → (zkvm : ZkvmInstance b) × (new_instance b connect config ≡ ok zkvm)
    unfolding new_instance new_mock
    new_instance_ok (ere p t endpoint) c v = let (a, e) = c in (ZkvmInstance.ere p t a, rw e refl)
    new_instance_ok (mock p t time size failure) c (positive, long, range) = (
      ZkvmInstance.mock p t (mock_of (el_kind p) time size failure),
      rw (le→leb 32 size long, range_ok time range) refl,
    )
    new_instance_ok (verifier p url) c v = let (a, e) = c in (ZkvmInstance.verifier p a, rw e refl)

    start_ok :
        (zkvms : Zkvms b) (configs : List ZkvmConfig)
        → All Connects configs
        → All IsValidZkvm configs
        → (found : Zkvms b) × (start_zkvms b connect zkvms configs ≡ ok found)
    unfolding start_zkvms
    start_ok zkvms [] c v = (zkvms, refl)
    start_ok zkvms (config ∷ configs) c v =
        let (zkvm, e) = new_instance_ok config c.0 v.0 in
        let (found, e') =
          start_ok (insert_entry proof_type_dec (config_proof_type config) zkvm zkvms) configs c.1
            v.1 in
        (found, rw e e')

    -- A configuration that passed validation starts, and fails no assertion of the mock, if the
    -- clients of the configured endpoints can be made and the configured keys can be read.
    pub start_zkvms_total :
        (config : Config)
        → validate config ≡ ok tt
        → All Connects config.zkvm
        → (zkvms : Zkvms b) × (start_zkvms b connect [] config.zkvm ≡ ok zkvms)
    start_zkvms_total config v c = start_ok [] config.zkvm c ((validate-eq-ok_iff config).0 v).each
