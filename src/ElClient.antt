-- ===== src/ElClient.antt =====
-- crates/server/src/el_client.rs: the JSON-RPC client of the execution layer.
pub mod Responses
use zkboost.Prelude.{
  ℕ, List, [], ◌∷◌, Text, text, Bool, true, Result, ok, err, ◌>>=◌, Option, none, some, length,
  if◌then◌else◌,
}
use zkboost.Payload.{Hash256, Bytes}
use zkboost.Transport.{Response, is_success}
use zkboost.Witness.{Attempt, found, not_found, failed}

-- An `i64`, without its bounds.
pub data ℤ : Type 0 where
  pos negsuc : ℕ → ℤ

pub record JsonRpcError : Type 0 where
  pub code : ℤ
  pub message : Text

pub record JsonRpcResponse (R : Type 0) : Type 0 where
  pub result : Option R
  pub error : Option JsonRpcError

pub data Error : Type 0 where
  http : Text → Error
  deserialize : Text → Error
  rpc : ℤ → Text → Error

-- `unwrap_or_default` on a text.
abbrev or_empty : Result Text Bytes → Text
or_empty (ok body) = body
or_empty (err e) = []

abbrev pub lift {ℓ} : {A : Type ℓ} → (Text → Error) → Result Text A → Result Error A
lift wrap (ok a) = ok a
lift wrap (err e) = err (wrap e)

module _ {R : Type 0} where
  -- The result of a response without an error.
  abbrev pub result_of : ℕ → JsonRpcResponse R → Result Error (Option (R × ℕ))
  result_of size response = elim response.error [
    | some e ↦ err (rpc e.code e.message)
    | none ↦ (elim response.result [ some value ↦ ok (some (value, size)) | none ↦ ok none ])
  ]

  -- `request`, for what the send of the request returns; `from_slice` reads a JSON response.
  unfoldable pub request :
      Result Text Response
      → (Bytes → Result Text (JsonRpcResponse R))
      → Result Error (Option (R × ℕ))
  request sent from_slice = do
    response ← lift http sent
    if is_success response.status
        then (do
          bytes ← lift http response.body
          rpc_response ← lift Error.deserialize (from_slice bytes)
          result_of (length bytes) rpc_response)
        else err (rpc (pos response.status) (or_empty response.body))

-- `JsonRpcRequest`, and the request of `request`.
pub record JsonRpcRequest (P : Type 0) : Type 0 where
  pub jsonrpc : Text
  pub method : Text
  pub params : P
  pub id : ℕ

abbrev pub rpc_request : {P : Type 0} → Text → P → JsonRpcRequest P
rpc_request method params = record {
  jsonrpc = text "2.0";
  method = method;
  params = params;
  id = 1;
}

-- `get_chain_config` and `get_block_by_hash` drop the size of the response.
unfoldable pub without_size :
    {R S : Type 0} → (R → S) → Result Error (Option (R × ℕ)) → Result Error (Option S)
without_size convert (ok (some (value, size))) = ok (some (convert value))
without_size convert (ok none) = ok none
without_size convert (err e) = err e

-- The methods of the client; `send` sends a request.
module _ {R P : Type 0} (send : JsonRpcRequest P → Result Text Response)
    (from_slice : Bytes → Result Text (JsonRpcResponse R)) where
  unfoldable pub get_chain_config : P → Result Error (Option R)
  unfolding request without_size
  get_chain_config no_params =
      without_size (λ chain_config. chain_config)
        (request (send (rpc_request (text "debug_chainConfig") no_params)) from_slice)

  -- The parameters are the hash and `true`, for full transactions.
  unfoldable pub get_block_by_hash :
      {B : Type 0} → (R → B) → (Hash256 → Bool → P) → Hash256 → Result Error (Option B)
  unfolding request without_size
  get_block_by_hash into_consensus params block_hash =
      without_size into_consensus (
        request (send (rpc_request (text "eth_getBlockByHash") (params block_hash true)))
          from_slice)

  unfoldable pub get_execution_witness_by_hash :
      (Hash256 → P) → Hash256 → Result Error (Option (R × ℕ))
  unfolding request
  get_execution_witness_by_hash params block_hash =
      request (send (rpc_request (text "debug_executionWitnessByBlockHash") (params block_hash)))
        from_slice

-- What an attempt of `fetch_witness` comes to, for what `get_execution_witness_by_hash` returns.
-- The error goes into the log only.
unfoldable pub attempt_of : {W : Type 0} → Result Error (Option (W × ℕ)) → Attempt W
attempt_of (ok (some (witness, size))) = found witness size
attempt_of (ok none) = not_found
attempt_of (err e) = failed []
