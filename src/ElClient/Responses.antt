-- ===== src/ElClient/Responses.antt =====
-- crates/server/src/el_client.rs: which responses are a result.
use zkboost.Prelude.{
  ℕ, ◌≡◌, refl, ◌↔◌, Text, Result, ok, err, Option, none, some, length, Option-cases, Bool-cases,
  inl, inr, true, ◌>>=◌, >>=-eq-ok,
}
use zkboost.Payload.{Bytes}
use zkboost.Transport.{Response, is_success}
use zkboost.ElClient.{JsonRpcResponse, Error, request, result_of, lift, http}

lift-eq-ok :
    {A : Type 0} (wrap : Text → Error) (m : Result Text A) (a : A) → lift wrap m ≡ ok a → m ≡ ok a
lift-eq-ok wrap (ok b) a h = cc
lift-eq-ok wrap (err e) a h = absurd (cc)

module _ {R : Type 0} (from_slice : Bytes → Result Text (JsonRpcResponse R)) where
  -- A response with a result: a status of success, and a body that reads as a result without an
  -- error.
  pub record Answers (sent : Result Text Response) (value : R) (size : ℕ) : Type 0 where
    pub response : Response
    pub received : sent ≡ ok response
    pub success : is_success response.status ≡ true
    pub bytes : Bytes
    pub body : response.body ≡ ok bytes
    pub rpc_response : JsonRpcResponse R
    pub read : from_slice bytes ≡ ok rpc_response
    pub no_error : rpc_response.error ≡ none
    pub result : rpc_response.result ≡ some value
    pub whole : length bytes ≡ size

  answered :
      (sent : Result Text Response) (value : R) (size : ℕ)
      → Answers sent value size
      → request sent from_slice ≡ ok (some (value, size))
  unfolding request
  answered sent value size a =
      rw (request, a.received, a.success, a.body, a.read, a.no_error, a.result, a.whole) refl

  result_of-eq-ok :
      (size size' : ℕ) (response : JsonRpcResponse R) (value : R)
      → result_of size response ≡ ok (some (value, size'))
      → (response.error ≡ none) × (response.result ≡ some value) × (size ≡ size')
  result_of-eq-ok size size' response value h = elim (Option-cases response.error) [
    | inl e ↦
        let h' = rw (result_of, e) at h in
        elim (Option-cases response.result) [
          | inl e' ↦ let h'' = rw e' at h' in absurd (cc)
          | inr (v, e') ↦ let h'' = rw e' at h' in (e, cc, cc)
        ]
    | inr (error, e) ↦ let h' = rw (result_of, e) at h in absurd (cc)
  ]

  module _ (response : Response) (value : R) (size : ℕ) where
    abbrev read_body : Bytes → Result Error (Option (R × ℕ))
    read_body bytes = lift Error.deserialize (from_slice bytes) >>= λ rpc_response.
        result_of (length bytes) rpc_response

    read_all :
        (sent : Result Text Response)
        → sent ≡ ok response
        → is_success response.status ≡ true
        → (lift http response.body >>= read_body) ≡ ok (some (value, size))
        → Answers sent value size
    read_all sent received success h =
        let (bytes, b, h') = >>=-eq-ok (lift http response.body) read_body h in
        let (rpc_response, r, h'') =
          >>=-eq-ok (lift Error.deserialize (from_slice bytes)) (λ q. result_of (length bytes) q)
            h' in
        let (no_error, result, whole) =
          result_of-eq-ok (length bytes) size rpc_response value h'' in
        record {
          response = response;
          received = received;
          success = success;
          bytes = bytes;
          body = lift-eq-ok http response.body bytes b;
          rpc_response = rpc_response;
          read = lift-eq-ok Error.deserialize (from_slice bytes) rpc_response r;
          no_error = no_error;
          result = result;
          whole = whole;
        }

  response_read :
      (sent : Result Text Response) (value : R) (size : ℕ)
      → request sent from_slice ≡ ok (some (value, size))
      → Answers sent value size
  unfolding request
  response_read sent value size h =
      let (response, r, h') = >>=-eq-ok (lift http sent) _ h in
      elim (Bool-cases (is_success response.status)) [
        | inl e ↦
            read_all response value size sent (lift-eq-ok http sent response r) e
              (let h'' = rw e at h' in h'')
        | inr e ↦ let h'' = rw e at h' in absurd (cc)
      ]

  -- A request has a value, with a size, exactly if a response came with a status of success and a
  -- body of that size that reads as the value without an error.
  pub request-eq-ok_iff :
      (sent : Result Text Response) (value : R) (size : ℕ)
      → (request sent from_slice ≡ ok (some (value, size))) ↔ Answers sent value size
  request-eq-ok_iff sent value size = (response_read sent value size, answered sent value size)
