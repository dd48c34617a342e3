-- ===== src/Http/Refusals.antt =====
-- crates/server/src/http/v1: the handlers' errors have the statuses of errors.
use zkboost.Prelude.{
  ◌≡◌, refl, ap, sym, ◌∙◌, List, [], ◌∷◌, Text, Bool, true, false, Result, ok, err, ◌>>=◌, ensure,
  Option, none, some, Option-cases, Result-cases, inl, inr, get, length, extend, ◌==◌, Bool-cases,
  not, is_empty, is_some,
}
use zkboost.ProofType.{ProofType, proof_type_dec}
use zkboost.Payload.{Hash256, Bytes}
use zkboost.External.{External}
use zkboost.Lru.{LruCache}
use zkboost.Transport.{is_success}
use zkboost.Proof.{Key}
use zkboost.Zkvm.{Backends}
use zkboost.Http.{
  ErrorResponse, bad_request, Ssz, Zkvms, post_execution_proof_requests, proof_request, respond,
  check_distinct, check_configured, check_provers, decode, post_execution_proof_verifications,
  get_execution_proofs, only_verifies,
}

-- The errors of a handler have the statuses of errors.
abbrev pub IsRefusal {ℓ} : {A : Type ℓ} → Result ErrorResponse A → Type ℓ
IsRefusal {A = A} m = (e : ErrorResponse) → m ≡ err e → is_success e.code ≡ false

IsRefusal-bind {ℓ κ} :
    {A : Type ℓ} {B : Type κ} (m : Result ErrorResponse A) (f : A → Result ErrorResponse B)
    → IsRefusal m
    → ((a : A) → IsRefusal (f a))
    → IsRefusal (m >>= f)
IsRefusal-bind (ok a) f h g = g a
IsRefusal-bind (err d) f h g = λ e same. let same' : d ≡ e = cc in h e (ap err same')

err-IsRefusal {ℓ} :
    {A : Type ℓ} (d : ErrorResponse) → is_success d.code ≡ false → IsRefusal {A = A} (err d)
err-IsRefusal d refused e h =
    let same : d ≡ e = cc in ap (λ (q : ErrorResponse). is_success q.code) (sym same) ∙ refused

ok-IsRefusal {ℓ} : {A : Type ℓ} (a : A) → IsRefusal (ok a)
ok-IsRefusal a e h = absurd (cc)

bad_request-IsRefusal : (c : Bool) (msg : Text) → IsRefusal (ensure c (bad_request msg))
bad_request-IsRefusal true msg = ok-IsRefusal tt
bad_request-IsRefusal false msg = err-IsRefusal (bad_request msg) refl

module _ {x : External} (b : Backends x) (zkvms : Zkvms b) (ssz : Ssz x) where
  check_distinct-IsRefusal : (ps : List ProofType) → IsRefusal (check_distinct ps)
  unfolding check_distinct
  check_distinct-IsRefusal ps =
      elim (Bool-cases (length (extend proof_type_dec [] ps) == length ps)) [
        | inl c ↦ rw (check_distinct, c) (ok-IsRefusal _)
        | inr c ↦ rw (check_distinct, c) (err-IsRefusal _ refl)
      ]

  check_configured-IsRefusal : (ps : List ProofType) → IsRefusal (check_configured b zkvms ps)
  unfolding check_configured
  check_configured-IsRefusal [] = ok-IsRefusal tt
  check_configured-IsRefusal (p ∷ ps) =
      IsRefusal-bind _ _ (bad_request-IsRefusal (is_some (get proof_type_dec zkvms p)) _)
        (λ u. check_configured-IsRefusal ps)

  check_provers-IsRefusal : (ps : List ProofType) → IsRefusal (check_provers b zkvms ps)
  unfolding check_provers
  check_provers-IsRefusal [] = ok-IsRefusal tt
  check_provers-IsRefusal (p ∷ ps) =
      IsRefusal-bind _ _ (bad_request-IsRefusal (not (only_verifies b zkvms p)) _)
        (λ u. check_provers-IsRefusal ps)

  decode-IsRefusal : (body : Bytes) → IsRefusal (decode b ssz body)
  decode-IsRefusal body = elim (Result-cases (ssz.from_ssz_bytes body)) [
    | inl (r, f) ↦ rw (decode, f) (ok-IsRefusal _)
    | inr (d, f) ↦ rw (decode, f) (err-IsRefusal _ refl)
  ]

  proof_request-IsRefusal :
      (ps : List ProofType) (body : Bytes) → IsRefusal (proof_request b zkvms ssz ps body)
  unfolding proof_request
  proof_request-IsRefusal ps body =
      IsRefusal-bind _ _ (bad_request-IsRefusal (not (is_empty ps)) _) (λ u.
        IsRefusal-bind _ _ (check_distinct-IsRefusal ps) (λ set.
          IsRefusal-bind _ _ (check_configured-IsRefusal set) (λ v.
            IsRefusal-bind _ _ (check_provers-IsRefusal set)
              (λ w. IsRefusal-bind _ _ (decode-IsRefusal body) (λ r. ok-IsRefusal _)))))

  respond-IsRefusal :
      (send_error : Option Text) (m : _) → IsRefusal m → IsRefusal (respond b send_error m).0
  unfolding respond
  respond-IsRefusal none (ok (root, request, set)) h = ok-IsRefusal root
  respond-IsRefusal (some t) (ok (root, request, set)) h = err-IsRefusal _ refl
  respond-IsRefusal none (err d) h = err-IsRefusal d (h d refl)
  respond-IsRefusal (some t) (err d) h = err-IsRefusal d (h d refl)

  pub post_requests-IsRefusal :
      (ps : List ProofType) (body : Bytes) (send_error : Option Text)
      → IsRefusal (post_execution_proof_requests b zkvms ssz ps body send_error).0
  unfolding post_execution_proof_requests
  post_requests-IsRefusal ps body send_error =
      respond-IsRefusal send_error _ (proof_request-IsRefusal ps body)

pub get_proofs-IsRefusal :
    (x : External) (proofs : LruCache Key Bytes) (cache : proofs.Cache) (root : Hash256)
    (p : ProofType)
    → IsRefusal (get_execution_proofs x proofs cache root p)
unfolding get_execution_proofs
get_proofs-IsRefusal x proofs cache root p = elim (Option-cases (proofs.peek cache (root, p))) [
  | inl f ↦ rw (get_execution_proofs, f) (err-IsRefusal _ refl)
  | inr (proof, f) ↦ rw (get_execution_proofs, f) (ok-IsRefusal _)
]

module _ {x : External} (b : Backends x) (zkvms : Zkvms b) where
  pub post_verifications-IsRefusal :
      (root : Hash256) (p : ProofType) (body : Bytes)
      → IsRefusal (post_execution_proof_verifications b zkvms root p body).0
  unfolding post_execution_proof_verifications
  post_verifications-IsRefusal root p body = elim (Option-cases (get proof_type_dec zkvms p)) [
    | inl f ↦ rw (post_execution_proof_verifications, f) (err-IsRefusal _ refl)
    | inr (zkvm, f) ↦ rw (post_execution_proof_verifications, f) (ok-IsRefusal _)
  ]
