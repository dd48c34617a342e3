-- ===== src/Server/Workers.antt =====
-- crates/server/src/server.rs: the workers of the proof service, and the requests that reach them.
use zkboost.Prelude.{
  refl, ap, ite, ℕ, ◌≤◌, ◌||◌, not, none, Bool, Option, subst, >>=-eq-ok, entries,
  entries-insert_entry, entries-get-none, insert_entry, ◌≡◌, sym, ◌∙◌, arith, if_pos, if_neg, List,
  [], ◌∷◌, ok, true, false, if◌then◌else◌, some, is_some, get, contains, insert, contains-insert,
  All, Option-cases, Bool-cases, inl, inr,
}
use zkboost.ProofType.{ProofType, proof_type_dec}
use zkboost.External.{External}
use zkboost.Config.Valid.{config_for, proves}
use zkboost.Config.{Config, validate, ZkvmConfig, ere, mock, verifier, config_proof_type}
use zkboost.Zkvm.{Backends, ZkvmInstance, instance_proof_type}
use zkboost.Http.{Zkvms, is_verifier, only_verifies}
use zkboost.Http.Acceptable.{HasProver, IsAcceptable}
use zkboost.Server.{new_instance, Connect, start_zkvms, worker_types}
use zkboost.Server.Start.{IsKeyed, started, ok-injective, IsConfigured, start_zkvms-IsConfigured}

module _ {x : External} (b : Backends x) where
  worker_types-keep :
      (p : ProofType) (types : List ProofType) (zkvms : Zkvms b)
      → contains proof_type_dec types p ≡ true
      → contains proof_type_dec (worker_types b types zkvms) p ≡ true
  unfolding worker_types
  worker_types-keep p types [] h = h
  worker_types-keep p types ((q, zkvm) ∷ zkvms) h = elim (Bool-cases (is_verifier b zkvm)) [
    | inl e ↦ rw (worker_types, e) (worker_types-keep p types zkvms h)
    | inr e ↦
        rw (worker_types, e)
          (worker_types-keep p (insert proof_type_dec (instance_proof_type b zkvm) types) zkvms
            (ground (arith, contains-insert proof_type_dec (instance_proof_type b zkvm) p types)))
  ]

  worker_types_new :
      (p : ProofType) (zkvm : ZkvmInstance b) (zkvms : Zkvms b) (types : List ProofType)
      → IsKeyed b zkvms
      → get proof_type_dec zkvms p ≡ some zkvm
      → is_verifier b zkvm ≡ false
      → contains proof_type_dec (worker_types b types zkvms) p ≡ true
  unfolding worker_types
  worker_types_new p zkvm [] types k g v = absurd (cc)
  worker_types_new p zkvm ((q, z) ∷ zkvms) types k g v = elim (proof_type_dec q p) [
    | yes e ↦
        let same : some z ≡ some zkvm = sym (if_pos (proof_type_dec q p) e (some z) _) ∙ g in
        let v' : is_verifier b z ≡ false = cc in
        rw (worker_types, v')
          (worker_types-keep p (insert proof_type_dec (instance_proof_type b z) types) zkvms (
            ground
              (arith, contains-insert proof_type_dec (instance_proof_type b z) p types, k.0, e)))
    | no n ↦
        worker_types_new p zkvm zkvms
          (if is_verifier b z then types else insert proof_type_dec (instance_proof_type b z) types)
          k.1 (sym (if_neg (proof_type_dec q p) n (some z) _) ∙ g) v
  ]

  abbrev proving : Option (ZkvmInstance b) → Bool
  proving none = false
  proving (some zkvm) = not (is_verifier b zkvm)

  or_true : (c : Bool) → (c || true) ≡ true
  or_true true = refl
  or_true false = refl

  get_no_entries :
      (p : ProofType) (zkvms : Zkvms b)
      → entries proof_type_dec p zkvms ≡ 0
      → get proof_type_dec zkvms p ≡ none
  get_no_entries p [] h = refl
  get_no_entries p ((q, z) ∷ zkvms) h = ground (arith, get_no_entries p zkvms)

  -- Where no proof type has two entries, the workers are those of the provers.
  contains-worker_types :
      (p : ProofType) (types : List ProofType) (zkvms : Zkvms b)
      → IsKeyed b zkvms
      → entries proof_type_dec p zkvms ≤ 1
      → contains proof_type_dec (worker_types b types zkvms) p
        ≡ contains proof_type_dec types p || proving (get proof_type_dec zkvms p)
  unfolding worker_types
  contains-worker_types p types [] k u = ground arith
  contains-worker_types p types ((q, z) ∷ zkvms) k u =
      let inserted = insert proof_type_dec (instance_proof_type b z) types in
      let rest = λ (ts : List ProofType). contains-worker_types p ts zkvms k.1 in
      elim (proof_type_dec q p) [
        | yes e ↦
            let one : ◌≡◌ {A = ℕ} (ite (proof_type_dec q p) 1 0) 1 =
              if_pos (proof_type_dec q p) e 1 0 in
            let none_left : entries proof_type_dec p zkvms ≡ 0 = omega (arith, one) in
            let absent = get_no_entries p zkvms none_left in
            elim (Bool-cases (is_verifier b z)) [
              | inl v ↦
                  rw (if_pos _ e, v)
                    (rest types (omega (arith, none_left))
                      ∙ ap (λ m. contains proof_type_dec types p || proving m) absent)
              | inr v ↦
                  rw (if_pos _ e, v)
                    (rest inserted (omega (arith, none_left))
                      ∙ ap (λ m. contains proof_type_dec inserted p || proving m) absent
                      ∙ ap (λ c. c || false)
                          (contains-insert proof_type_dec (instance_proof_type b z) p types
                            ∙ if_pos (proof_type_dec (instance_proof_type b z) p) (k.0 ∙ e) true _)
                      ∙ sym (or_true (contains proof_type_dec types p)))
            ]
        | no n ↦
            let none_here : ◌≡◌ {A = ℕ} (ite (proof_type_dec q p) 1 0) 0 =
              if_neg (proof_type_dec q p) n 1 0 in
            elim (Bool-cases (is_verifier b z)) [
              | inl v ↦ rw (if_neg _ n, v) (rest types (omega (arith, none_here)))
              | inr v ↦
                  rw (if_neg _ n, v)
                    (rest inserted (omega (arith, none_here))
                      ∙ ap (λ c. c || proving (get proof_type_dec zkvms p))
                          (contains-insert proof_type_dec (instance_proof_type b z) p types
                            ∙ if_neg (proof_type_dec (instance_proof_type b z) p)
                                (λ e. n (sym k.0 ∙ e)) true _))
            ]
      ]

  start-entries :
      (connect : Connect b) (zkvms found : Zkvms b) (configs : List ZkvmConfig) (p : ProofType)
      → start_zkvms b connect zkvms configs ≡ ok found
      → entries proof_type_dec p zkvms ≤ 1
      → entries proof_type_dec p found ≤ 1
  unfolding start_zkvms
  start-entries connect zkvms found [] p h u =
      subst (λ m. entries proof_type_dec p m ≤ 1) (ok-injective h) u
  start-entries connect zkvms found (config ∷ configs) p h u =
      let (zkvm, e, h') = >>=-eq-ok (new_instance b connect config) _ h in
      let q = config_proof_type config in
      start-entries connect (insert_entry proof_type_dec q zkvm zkvms) found configs p h' (
        ground (
          arith,
          entries-insert_entry proof_type_dec q p zkvm zkvms,
          entries-get-none proof_type_dec q zkvms,
        ))

  proving-proves :
      (connect : Connect b) (config : Option ZkvmConfig) (zkvm : Option (ZkvmInstance b))
      → IsConfigured b connect config zkvm
      → proving zkvm ≡ proves config
  proving-proves connect none none h = refl
  proving-proves connect (some (ere p t endpoint)) (some (ZkvmInstance.ere q u c)) h = refl
  proving-proves connect (some (mock p t time size failure)) (some (ZkvmInstance.mock q u vm)) h =
      refl
  proving-proves connect (some (verifier p url)) (some (ZkvmInstance.verifier q v)) h = refl
  proving-proves connect _ _ h = absurd h

  -- After the start of a valid configuration, the proof types with a worker are those that have a
  -- backend in the configuration which proves.
  pub start-worker_types :
      (connect : Connect b) (config : Config) (zkvms : Zkvms b) (p : ProofType)
      → validate config ≡ ok tt
      → start_zkvms b connect [] config.zkvm ≡ ok zkvms
      → contains proof_type_dec (worker_types b [] zkvms) p ≡ proves (config_for p config.zkvm)
  start-worker_types connect config zkvms p valid h =
      let (keyed, each) = start_zkvms-IsConfigured b connect config zkvms valid h in
      contains-worker_types p [] zkvms keyed
        (start-entries connect [] zkvms config.zkvm p h (omega arith))
      ∙ proving-proves connect (config_for p config.zkvm) (get proof_type_dec zkvms p) (each p).1

  prover_instance :
      (zkvms : Zkvms b) (p : ProofType)
      → HasProver b zkvms p
      → (zkvm : ZkvmInstance b) × (get proof_type_dec zkvms p ≡ some zkvm)
        × (is_verifier b zkvm ≡ false)
  prover_instance zkvms p h = elim (Option-cases (get proof_type_dec zkvms p)) [
    | inl e ↦ let h' = rw (is_some, e) at h.0 in absurd (cc)
    | inr (zkvm, e) ↦ (zkvm, e, (let h' = rw (only_verifies, e) at h.1 in h'))
  ]

  workers_of :
      (zkvms : Zkvms b) (ps : List ProofType)
      → IsKeyed b zkvms
      → All (HasProver b zkvms) ps
      → All (λ p. contains proof_type_dec (worker_types b [] zkvms) p ≡ true) ps
  workers_of zkvms [] k h = tt
  workers_of zkvms (p ∷ ps) k h =
      let (zkvm, e, v) = prover_instance zkvms p h.0 in
      (worker_types_new p zkvm zkvms [] k e v, workers_of zkvms ps k h.1)

  -- On a server that has started, the proof types of an acceptable request all have a worker.
  pub IsAcceptable-worker_types :
      (connect : Connect b) (configs : List ZkvmConfig) (zkvms : Zkvms b) (ps : List ProofType)
      → start_zkvms b connect [] configs ≡ ok zkvms
      → IsAcceptable b zkvms ps
      → All (λ p. contains proof_type_dec (worker_types b [] zkvms) p ≡ true) ps
  IsAcceptable-worker_types connect configs zkvms ps h a =
      workers_of zkvms ps (started b connect [] zkvms configs h tt).0 a.provers
