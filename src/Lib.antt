-- ===== src/Lib.antt =====
-- zkboost: a server that has proofs of Ethereum execution payloads made by zkVMs, and serves and
-- verifies them. A consensus client posts a payload request with a list of proof types. The HTTP
-- handler checks it and sends it to the proof service, which asks the witness service for the
-- block's execution witness and then hands the request, with the witness, to a worker for each
-- proof type. Each worker's output ends in the proof cache and in an event, or in an event of a
-- failure. The dashboard's service keeps a history of the messages that the others send it.
--
-- The files and the code that they are about:
--
-- - ProofType, ProofType/Names, ProofType/Query, ProofType/Query/RoundTrip: `ProofType` in
--   crates/types/src/proof_type.rs and `comma_separated` in crates/types/src/lib.rs.
-- - Events: `ProofEvent`, `to_parts` and `try_from_parts` in crates/types/src/lib.rs.
-- - Payload, Payload/Conversion: crates/types/src/new_payload_request.rs and the conversion to
--   alloy's types in crates/server/src/proof/input.rs.
-- - Worker, Worker/Run: `NewPayloadRequestWithWitness::new` in crates/server/src/proof/input.rs
--   and `run_worker` in crates/server/src/proof/worker.rs.
-- - Proof, Proof/Service: `ProofService` in crates/server/src/proof.rs, one function for each
--   handler and for each arm of `handle_message`. Proof/Keys, Proof/Accounting, Proof/Requests
--   and Proof/System count where a root with a proof type stands; Proof/System has the event
--   loop as the relation `Step`; Proof/Blocks and Proof/Asking say what the handlers do to the
--   pending blocks; Proof/Delivery, Proof/Dispatch and Proof/Refinement have the theorems, the
--   last against a machine of three phases that is the service's contract for one root with one
--   proof type.
-- - Witness, Witness/Fetch, Witness/Steps, Witness/Effects: `WitnessService` in
--   crates/server/src/witness.rs.
-- - Network, Network/Outstanding, Network/Settled: the two services together, with the channels
--   between them that `zkBoostServer::run` in crates/server/src/server.rs makes.
-- - Dashboard, Dashboard/Service, Dashboard/Proofs, Dashboard/History, Dashboard/Frame:
--   crates/server/src/dashboard.rs. Dashboard/Page: what the page in
--   crates/server/src/http/dashboard/index.html makes of the service's events, one function for
--   `updateHistoricalBlock` and one for the event handlers; Dashboard/Page/Merge and
--   Dashboard/Page/Found have the lemmas on an update, Dashboard/Page/Reads, Dashboard/Page/Run
--   and Dashboard/Page/Again the page beside the service.
-- - Zkvm, Zkvm/Verify, Zkvm/Mock: `zkVMInstance` and `MockzkVM` in
--   crates/server/src/proof/zkvm.rs.
-- - Config, Config/Valid: crates/server/src/config.rs.
-- - Http, Http/Acceptable, Http/Requests, Http/Reads, Http/Refusals: the handlers in
--   crates/server/src/http/v1.
-- - Api: the queries and responses in crates/types/src/lib.rs, and the interface of the crates
--   that carry them. Api/Requests: the requests of crates/client/src/lib.rs. Api/Router,
--   Api/Serve: `router` and `AppState` in crates/server/src/http.rs, the extractors in
--   crates/server/src/http/v1.rs and crates/server/src/http/dashboard.rs. Api/Routes,
--   Api/Queries, Api/Answers, Api/EndToEnd, Api/Total: the client against the router.
-- - Metrics, Metrics/InFlight, Metrics/Proofs: crates/server/src/metrics.rs.
-- - Server, Server/Start, Server/Workers: `zkVMInstance::new`,
--   crates/server/src/proof/verifier.rs and the parts of crates/server/src/server.rs that make
--   the instances and the workers. Server/Run, Server/Running: `zkBoostServer::new` and
--   `zkBoostServer::run`.
-- - ElClient: crates/server/src/el_client.rs. Client: crates/client/src. Attestor:
--   crates/mock-zkattestor/src/main.rs. ClClient: crates/mock-zkattestor/src/cl_client.rs.
--   GuestLoader, GuestLoader/Load: crates/guest-loader/src, with `main` and its write.
-- - Prelude and its children: what the other files share: Boolean tests, lists, `Result`, texts,
--   `HashSet` and `HashMap`, sorting. Lru: the interface of the crate `lru`, and a cache that
--   meets it; whether a table of some capacity can be allocated is a part of the interface.
--   External, Transport: what the server takes from other crates.
-- - Tests: runs on concrete inputs.
--
-- State is passed and returned. What a service sends is kept beside its state, one list for each
-- channel, the newest first; a message stands there also where the source ignores that its
-- channel is full or closed. What a send returns, the time, and what the EL, a zkVM or a client
-- answers are arguments. `HashSet` and `HashMap` are lists without repeated keys whose order
-- stands for the order of iteration. A `Hash256` or an address is a number, a byte a number, a
-- text the list of its code points. A time in seconds is an abstract type. The product in the
-- proving time of the mock saturates at 64 bits and the capacity of the proof cache wraps at 64
-- bits, as in the source; no other number is bounded. A call of the metrics crate is an entry of
-- a log. A panic is a missing result. All loops are structural recursion over the lists that
-- they read, so no fuel is used: the retries of a fetch run over the attempts that are made
-- before its timeout, the server asks for the chain configuration over the attempts so far, and
-- the event loops are relations between one state and the next.
--
-- Not modelled: SSZ, tree hashing, JSON, hashing, the guests, the clients and the verifiers of
-- other crates, which are parameters with the laws that the code relies on; the context that
-- anyhow adds to the text of an error; URLs, routing and query strings, likewise with laws (a
-- field that stands twice in a query is an error; the text of it is the crate's); the set-up of
-- the exporter of metrics and of tracing, the layers of the router, the command line, TOML; the
-- rendering of the page and the events that it buffers before its snapshot; the capacity of the
-- channels, which are queues in Network and in Proof/System and Witness/Steps give their
-- messages in any order; the cancellation of tasks at shutdown.
pub mod Prelude
pub mod ProofType
pub mod Network
pub mod Metrics
pub mod Payload
pub mod Lru
pub mod Events
pub mod External
pub mod Worker
pub mod Dashboard
pub mod Proof
pub mod Witness
pub mod Config
pub mod Zkvm
pub mod Http
pub mod Transport
pub mod Server
pub mod Client
pub mod Api
pub mod Attestor
pub mod ClClient
pub mod ElClient
pub mod GuestLoader
mod Tests
