-- ===== src/Tests/Api.antt =====
-- crates/client/src/lib.rs, crates/server/src/http.rs: the client and the server over one connection.
use zkboost.Prelude.{ℕ, ◌≡◌, refl, arith, [], ◌∷◌, Text, text, ok, ◌>>=◌, none, some, Result}
use zkboost.ProofType.{reth_zisk, reth_sp1}
use zkboost.Payload.{Bytes, NewPayloadRequest}
use zkboost.Transport.{Response}
use zkboost.Proof.Service.{handle_worker_output}
use zkboost.Http.{
  post_execution_proof_requests, post_execution_proof_verifications, get_execution_proof_requests,
}
use zkboost.Api.{Request, get}
use zkboost.Api.Serve.{AppState, Pages, Reply, router}
use zkboost.Api.Requests.{request_proof, get_proof, verify_proof, subscribe_proof_events}
use zkboost.Api.Answers.{client_result}
use zkboost.Api.EndToEnd.{
  over, source, request_proof-router, verify_proof-router, subscribe_proof_events-router,
  get_proof-handle_worker_output,
}
use zkboost.Api.Total.{router_total}
use zkboost.Tests.World.{world, proof_lru, request}
use zkboost.Tests.Machines.{machines, zkvms, ssz, digest}
use zkboost.Tests.Service.{dispatched, proved, program}
use zkboost.Tests.Dashboard.{block_lru}
use zkboost.Tests.Names.{json}
use zkboost.Tests.Wires.{wire, lawful, join, join-JoinsPaths}

abbrev pages : Pages world machines proof_lru block_lru
pages = record { dashboard_html = []; write_state = λ s. []; write_event = λ e. [] }

-- The server once a worker's proof is in the cache; there is no dashboard.
abbrev state : AppState world machines proof_lru block_lru
state = record {
  zkvms = zkvms;
  proof_cache = (handle_worker_output world proof_lru dispatched.service proved 107).proof_cache;
  metrics = [];
  dashboard = none;
  send_error = none;
  proof_event_rx = none ∷ [];
  dashboard_event_rx = [];
}

abbrev as_ssz_bytes : NewPayloadRequest ℕ → Bytes
as_ssz_bytes r = 1 ∷ 2 ∷ []

abbrev connection : Request → Result Text Response
connection =
    over world machines proof_lru block_lru wire lawful json ssz pages as_ssz_bytes join
      join-JoinsPaths state

request_proof-router_example :
    request_proof world wire json join as_ssz_bytes connection request (reth_zisk ∷ reth_sp1 ∷ [])
    ≡ client_result wire json (
        (post_execution_proof_requests machines zkvms ssz
          (reth_zisk ∷ reth_sp1 ∷ [])
          (1 ∷ 2 ∷ [])
          none).0
        >>= λ root. ok (record { new_payload_request_root = root }))
request_proof-router_example =
    request_proof-router world machines proof_lru block_lru wire lawful json ssz pages as_ssz_bytes
      join join-JoinsPaths state request (reth_zisk ∷ reth_sp1 ∷ []) refl

verify_proof-router_example :
    verify_proof world wire json join as_ssz_bytes connection 9 reth_zisk digest
    ≡ client_result wire json (
        (post_execution_proof_verifications machines zkvms 9 reth_zisk digest).0 >>= λ status.
        ok (record { status = status }))
verify_proof-router_example =
    verify_proof-router world machines proof_lru block_lru wire lawful json ssz pages as_ssz_bytes
      join join-JoinsPaths state 9 reth_zisk digest refl

subscribe_proof_events-router_example :
    subscribe_proof_events world wire json join as_ssz_bytes
      (source world machines proof_lru block_lru wire lawful json ssz pages as_ssz_bytes join
        join-JoinsPaths state)
      (some 9)
    ≡ (
      get_execution_proof_requests world proof_lru state.proof_cache (some 9) state.proof_event_rx,
      none,
    )
subscribe_proof_events-router_example =
    subscribe_proof_events-router world machines proof_lru block_lru wire lawful json ssz pages
      as_ssz_bytes join join-JoinsPaths state 9

get_proof-handle_worker_output_example :
    get_proof world wire json join as_ssz_bytes connection 9 reth_zisk ≡ ok (1 ∷ 2 ∷ 3 ∷ [])
unfolding program
get_proof-handle_worker_output_example =
    get_proof-handle_worker_output world machines proof_lru block_lru wire lawful json ssz pages
      as_ssz_bytes join join-JoinsPaths state dispatched.service proved 107 (1 ∷ 2 ∷ 3 ∷ []) refl
      (omega arith) refl

-- The dashboard's state is asked for, where there is none.
abbrev stray : Request
stray = record {
  method = get;
  url = record { path = text "/dashboard/state"; query = [] };
  content_type = none;
  body = [];
}

router_total_example :
    (r : Reply world machines proof_lru block_lru) × (router world machines proof_lru block_lru wire
        json ssz pages state stray
      ≡ some r)
router_total_example =
    router_total world machines proof_lru block_lru wire json ssz pages state stray
