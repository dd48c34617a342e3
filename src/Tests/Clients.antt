-- ===== src/Tests/Clients.antt =====
-- crates/client, crates/mock-zkattestor, crates/guest-loader and the EL's client.
use zkboost.Prelude.{
  ℕ, ◌<◌, ◌≡◌, refl, ◌↔◌, arith, List, [], ◌∷◌, ◌++◌, Text, text, Result, ok, err, Option, some,
  none, false, All,
}
use zkboost.ProofType.{reth_zisk, reth_sp1}
use zkboost.ProofType.Query.{trim}
use zkboost.Payload.{Bytes}
use zkboost.Events.{ProofEvent}
use zkboost.Transport.{Response}
use zkboost.Http
use zkboost.Attestor.{process_events, all_done}
use zkboost.Attestor.Done.{IsCovered, process_events-done_iff}
use zkboost.ElClient.{JsonRpcResponse, request}
use zkboost.ElClient.Responses.{Answers, request-eq-ok_iff}
use zkboost.GuestLoader.{Minisign, Sources, Files, main}
use zkboost.GuestLoader.Load.{IsSigned, IsFetched, IsFetchedText, IsKey, HasParent, main_iff}
use zkboost.ClClient.{
  Beacon, BeaconBlock, DenebBlock, number_from, versioned_hashes, kzg_commitment_to_versioned_hash,
  new_payload_request_from_beacon_block,
}
use zkboost.ClClient.Versions.{IsRequestOf, new_payload_request-IsRequestOf}
use zkboost.Payload.{ExecutionPayloadDeneb, NewPayloadRequest, deneb}
use zkboost.Zkvm.Verify.{zeros}
use zkboost.Tests.World.{payload}
use zkboost.Tests.Machines.{digest}
use zkboost.Tests.Names.{failed}

abbrev completed : ProofEvent
completed =
    ProofEvent.proof_complete (record { new_payload_request_root = 9; proof_type = reth_sp1 })

abbrev events : List ProofEvent
events = completed ∷ failed ∷ []

abbrev write : Http.ErrorResponse → Bytes
write e = text "message:" ++ e.message

abbrev read_message : Bytes → Option Text
read_message (m ∷ e ∷ s ∷ s' ∷ a ∷ g ∷ e' ∷ colon ∷ msg) = some msg
read_message _ = none

process_events-done_iff_example :
    ((process_events (reth_zisk ∷ reth_sp1 ∷ []) events).0 ≡ all_done)
    ↔ All (IsCovered events) (reth_zisk ∷ reth_sp1 ∷ [])
process_events-done_iff_example = process_events-done_iff (reth_zisk ∷ reth_sp1 ∷ []) events

abbrev from_slice : Bytes → Result Text (JsonRpcResponse ℕ)
from_slice [] = err (text "EOF")
from_slice (c ∷ rest) = ok (record { result = some c; error = none })

abbrev answer : Result Text Response
answer = ok (record { status = 200; body = ok (7 ∷ 8 ∷ []) })

request-eq-ok_iff_example :
    (request answer from_slice ≡ ok (some (7, 2))) ↔ Answers from_slice answer 7 2
request-eq-ok_iff_example = request-eq-ok_iff from_slice answer 7 2

abbrev minisign : Minisign
minisign = record {
  PublicKey = Text;
  SignatureBox = Text;
  key_from_base64 = λ key. ok key;
  signature_from_string = λ signature. ok signature;
  verify = λ key signature program. ok tt;
}

abbrev sources : Sources
sources = record {
  send = λ url. ok (record { status = 200; body = ok (1 ∷ 2 ∷ []) });
  decode = λ bytes. text "sig\n";
  read = λ path. err (text "no such file");
  read_to_string = λ path. err (text "no such file");
  exists = λ path. false;
}

abbrev files : Files
files = record {
  parent = λ path. some (text "out");
  create_dir_all = λ path. ok tt;
  write = λ path bytes. ok tt;
}

main_iff_example :
    (main minisign sources files
        (text "http://elf")
        (text "https://sig")
        (text "key")
        (text "out/elf")
      ≡ (ok tt, some (text "out/elf", 1 ∷ 2 ∷ [])))
    ↔ ((signature : Text) × (key : Text) × IsFetched sources (text "http://elf") (1 ∷ 2 ∷ [])
        × IsFetchedText sources (text "https://sig") signature
        × IsKey sources (text "key") key
        × IsSigned minisign (1 ∷ 2 ∷ []) (trim signature) (trim key)
        × HasParent files (text "out/elf"))
main_iff_example =
    main_iff minisign sources files (text "http://elf") (text "https://sig") (text "key")
      (text "out/elf") (1 ∷ 2 ∷ [])

-- A digest of 32 bytes, and a beacon block with one commitment.
abbrev beacon : Beacon
beacon = record { sha256 = λ c. digest; max_hashes = 4096 }

in_bytes : All (λ b. b < 256) digest
in_bytes = ground arith

abbrev beacon_payload : ExecutionPayloadDeneb
beacon_payload = record {
  capella = record { bellatrix = payload; withdrawals = [] };
  blob_gas_used = 0;
  excess_blob_gas = 0;
}

abbrev one_commitment : DenebBlock
one_commitment = record {
  execution_payload = beacon_payload;
  blob_kzg_commitments = (1 ∷ 2 ∷ []) ∷ [];
  parent_root = 3;
}

abbrev beacon_block : BeaconBlock ℕ
beacon_block = BeaconBlock.deneb_block one_commitment

abbrev beacon_request : NewPayloadRequest ℕ
beacon_request = deneb (record {
  execution_payload = beacon_payload;
  versioned_hashes = number_from 0 (1 ∷ zeros 31) ∷ [];
  parent_beacon_block_root = 3;
})

new_payload_request-IsRequestOf_example : IsRequestOf beacon_block beacon_request
unfolding new_payload_request_from_beacon_block versioned_hashes kzg_commitment_to_versioned_hash
new_payload_request-IsRequestOf_example =
    new_payload_request-IsRequestOf beacon (λ c. refl) (λ c. in_bytes) beacon_block beacon_request
      refl
