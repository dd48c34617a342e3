-- ===== src/Tests/Machines.antt =====
-- The zkVMs that the tests use: a client and a verifier that take the proof for its public values.
use zkboost.Prelude.{length, ℕ, refl, [], ◌∷◌, Text, text, ok, false}
use zkboost.ProofType.{reth_zisk, reth_sp1, ethrex_zisk, el_kind}
use zkboost.Payload.{Bytes}
use zkboost.Worker.{NewPayloadRequestWithWitness, StatelessInput}
use zkboost.Config.{linear}
use zkboost.Zkvm.{Backends, ZkvmInstance, MockZkvm, Random}
use zkboost.Zkvm.Verify.{zeros}
use zkboost.Http.{Zkvms, Ssz}
use zkboost.Server.{Connect}
use zkboost.Tests.World.{world, request}

abbrev pub digest : Bytes
digest = 7 ∷ zeros 31

abbrev pub machines : Backends world
machines = record {
  Client = Text;
  Verifier = Text;
  Input = ℕ;
  ethrex_input = λ input. ok (2 ∷ []);
  reth_input = λ input. ok (3 ∷ []);
  with_prefixed_stdin = λ stdin. length stdin;
  client_prove = λ client input. ok digest;
  client_verify = λ client proof. ok proof;
  verifier_verify = λ key proof. ok proof;
  compute_ethrex = λ input. ok (1 ∷ []);
  compute_reth = λ input. ok (1 ∷ []);
  encode_output = λ root. ok (1 ∷ []);
  gas_used = λ block. 21000;
  sha256 = λ bytes. digest;
  length-sha256 = λ bytes. refl;
}

abbrev pub connect : Connect machines
connect = record {
  new_client = λ url. ok url;
  read_file = λ path. ok path;
  http_get = λ url. ok (record { status = 200; body = ok (9 ∷ []) });
  new_verifier = λ kind key. ok (text "verifier");
}

abbrev pub mock_vm : MockZkvm
mock_vm = record {
  el_kind = el_kind reth_sp1;
  mock_proving_time = linear 100;
  mock_proof_size = 40;
  failure = false;
}

-- A prover, a mock, and a proof type that is verified only.
abbrev pub zkvms : Zkvms machines
zkvms =
    (reth_zisk, ZkvmInstance.ere reth_zisk 12 (text "http://prover"))
    ∷ (reth_sp1, ZkvmInstance.mock reth_sp1 12 mock_vm)
    ∷ (ethrex_zisk, ZkvmInstance.verifier ethrex_zisk (text "verifier"))
    ∷ []

abbrev pub ssz : Ssz world
ssz = record { from_ssz_bytes = λ body. ok request; tree_hash_root = λ r. 9 }

abbrev pub rng : Random
rng = record { range = λ lo hi. lo; byte = λ i. 1 }

abbrev pub input : StatelessInput world
input = record { block = 7; witness = 1; chain_config = 0 }

abbrev pub payload : NewPayloadRequestWithWitness world
payload = record { root = 9; stateless_input = input; block_hash = 5 }
