-- ===== src/Http/Reads.antt =====
-- crates/server/src/http/v1: what the handlers that read the state answer.
use zkboost.Prelude.{
  length, ℕ_discrete, ◌+◌, ◌<◌, ◌≡◌, refl, ◌↔◌, ◌∙◌, arith, List, [], ◌∷◌, ◌++◌, map, true, ok,
  Option, some, get, count, All, IsSortedFrom, sort_by_key-IsSortedFrom, count-map-sort_by_key,
  Option-cases, Result-cases, inl, inr,
}
use zkboost.ProofType.{ProofType, proof_type_dec, discriminant}
use zkboost.Payload.{Hash256, Bytes}
use zkboost.Events.{ProofEvent, event_root}
use zkboost.External.{External}
use zkboost.Lru.{LruCache}
use zkboost.Worker.{WorkerOutput, proof_ok}
use zkboost.Proof.{Key, ProofService}
use zkboost.Proof.Service.{handle_worker_output, finish}
use zkboost.Zkvm.{Backends, ZkvmInstance, verify}
use zkboost.Http.{
  Zkvms, valid, post_execution_proof_verifications, info_of, get_proof_types, get_execution_proofs,
  catch_up, received, filter_root, get_execution_proof_requests,
}

module _ (x : External) (proofs : LruCache Key Bytes) where
  -- A proof that a worker made is served from the time that the service has handled the worker's
  -- output, if the cache has room for an entry.
  pub get_execution_proofs-handle_worker_output :
      (s : ProofService x proofs)
      → (output : WorkerOutput) → (now : x.Seconds) → (proof : Bytes)
      → output.proof_result ≡ proof_ok proof
      → 0 < proofs.cap s.proof_cache
      → get_execution_proofs x proofs
          (handle_worker_output x proofs s output now).proof_cache
          output.new_payload_request_root
          output.proof_type
        ≡ ok proof
  unfolding get_execution_proofs handle_worker_output finish
  get_execution_proofs-handle_worker_output s output now proof e room =
      rw
        (
          e,
          get_execution_proofs,
          proofs.peek-put_self s.proof_cache (output.new_payload_request_root, output.proof_type)
              proof room,
        )
        refl

  abbrev pub IsAbout : Hash256 → ProofEvent → Type 0
  IsAbout root event = event_root event ≡ root

  catch_up-IsAbout :
      (root : Hash256) (entries : List (Key × Bytes))
      → All (IsAbout root) (catch_up x proofs root entries)
  unfolding catch_up
  catch_up-IsAbout root [] = tt
  catch_up-IsAbout root (((r, p), proof) ∷ entries) = ground (arith, catch_up-IsAbout root entries)

  filter_root-IsAbout :
      (root : Hash256) (events : List ProofEvent)
      → All (IsAbout root) (filter_root x proofs root events)
  unfolding filter_root
  filter_root-IsAbout root [] = tt
  filter_root-IsAbout root (event ∷ events) = ground (arith, filter_root-IsAbout root events)

  All-append :
      (P : ProofEvent → Type 0) (l m : List ProofEvent) → All P l → All P m → All P (l ++ m)
  All-append P [] m h h' = h'
  All-append P (e ∷ l) m h h' = (h.0, All-append P l m h.1 h')

  -- A stream that was asked for one root has events of that root only.
  pub get_execution_proof_requests-IsAbout :
      (cache : proofs.Cache) (root : Hash256) (live : List (Option ProofEvent))
      → All (IsAbout root) (get_execution_proof_requests x proofs cache (some root) live)
  unfolding get_execution_proof_requests
  get_execution_proof_requests-IsAbout cache root live =
      All-append (IsAbout root) _ _ (catch_up-IsAbout root (proofs.iter cache))
        (filter_root-IsAbout root (received x proofs live))

  length-append : (l m : List ProofEvent) → length (l ++ m) ≡ length l + length m
  length-append [] m = omega arith
  length-append (e ∷ l) m = omega (arith, length-append l m)

  length-catch_up :
      (root : Hash256) (entries : List (Key × Bytes))
      → length (catch_up x proofs root entries) ≡ count ℕ_discrete root (map (λ e. e.0.0) entries)
  unfolding catch_up
  length-catch_up root [] = refl
  length-catch_up root (((r, p), proof) ∷ entries) = ground (arith, length-catch_up root entries)

  length-filter_root :
      (root : Hash256) (events : List ProofEvent)
      → length (filter_root x proofs root events) ≡ count ℕ_discrete root (map event_root events)
  unfolding filter_root
  length-filter_root root [] = refl
  length-filter_root root (event ∷ events) = ground (arith, length-filter_root root events)

  -- A stream that was asked for one root has as many events as the cache has proofs of the root,
  -- and as events of the root are received.
  pub length-get_execution_proof_requests :
      (cache : proofs.Cache) (root : Hash256) (live : List (Option ProofEvent))
      → length (get_execution_proof_requests x proofs cache (some root) live)
        ≡ count ℕ_discrete root (map (λ e. e.0.0) (proofs.iter cache))
          + count ℕ_discrete root (map event_root (received x proofs live))
  unfolding get_execution_proof_requests
  length-get_execution_proof_requests cache root live = omega (
    arith,
    length-append (catch_up x proofs root (proofs.iter cache))
        (filter_root x proofs root (received x proofs live)),
    length-catch_up root (proofs.iter cache),
    length-filter_root root (received x proofs live),
  )

module _ {x : External} (b : Backends x) where
  count-info_of :
      (zkvms : Zkvms b) (p : ProofType)
      → count proof_type_dec p (map (λ i. i.proof_type) (map (info_of b) zkvms))
        ≡ count proof_type_dec p (map (λ e. e.0) zkvms)
  count-info_of [] p = refl
  count-info_of (e ∷ zkvms) p = ground (arith, count-info_of zkvms p)

  -- The list of proof types has a row for each configured instance and no other, and its rows stand
  -- in the order of the enum.
  pub get_proof_types-sorted :
      (zkvms : Zkvms b)
      → IsSortedFrom (λ i. discriminant i.proof_type) 0 (get_proof_types b zkvms)
        × ((p : ProofType)
            → count proof_type_dec p (map (λ i. i.proof_type) (get_proof_types b zkvms))
              ≡ count proof_type_dec p (map (λ e. e.0) zkvms))
  unfolding get_proof_types
  get_proof_types-sorted zkvms = (
    sort_by_key-IsSortedFrom (λ i. discriminant i.proof_type) (map (info_of b) zkvms),
    λ p.
        count-map-sort_by_key (λ i. discriminant i.proof_type) proof_type_dec (λ i. i.proof_type) p
          (map (info_of b) zkvms)
        ∙ count-info_of zkvms p,
  )

  -- A proof is reported as valid, and counted as a success, exactly if an instance is configured
  -- for its type and that instance verifies it.
  pub post_execution_proof_verifications-valid_iff :
      (zkvms : Zkvms b) (root : Hash256) (p : ProofType) (proof : Bytes)
      → (post_execution_proof_verifications b zkvms root p proof ≡ (ok valid, (p, true))) ↔ (
          (zkvm : ZkvmInstance b) × (get proof_type_dec zkvms p ≡ some zkvm)
          × (verify b zkvm root proof ≡ ok tt))
  unfolding post_execution_proof_verifications
  post_execution_proof_verifications-valid_iff zkvms root p proof = (
    λ h. elim (Option-cases (get proof_type_dec zkvms p)) [
      | inl e ↦ let h' = rw (post_execution_proof_verifications, e) at h in absurd (cc)
      | inr (zkvm, e) ↦
          let h' = rw (post_execution_proof_verifications, e) at h in
          elim (Result-cases (verify b zkvm root proof)) [
            | inl (u, e') ↦ (zkvm, e, e')
            | inr (error, e') ↦
                let h'' = rw (post_execution_proof_verifications, e') at h' in absurd (cc)
          ]
    ],
    λ (zkvm, e, e'). rw (post_execution_proof_verifications, e, e') refl,
  )
