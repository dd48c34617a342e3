-- ===== src/ClClient.antt =====
-- crates/mock-zkattestor/src/cl_client.rs: the client of the beacon node, and the payload request
-- of a beacon block. The node's responses, SSZ, JSON and SHA-256 are parameters.
pub mod Versions
use zkboost.Prelude.{
  ℕ, ◌+◌, ◌*◌, leb, List, [], ◌∷◌, ◌++◌, map, length, Text, text, text_eq, Result, ok, err, ◌>>=◌,
  ok_or, Option, none, some, if◌then◌else◌, Bool,
}
use zkboost.Payload.{
  Hash256, Bytes, ExecutionPayloadBellatrix, ExecutionPayloadCapella, ExecutionPayloadDeneb,
  NewPayloadRequest, bellatrix, capella, deneb, electra, fulu,
}
use zkboost.Transport.{Response, is_success}
use zkboost.Client.{SseEvent, opened, message}

-- `Block`, an event of the beacon node.
pub record Block : Type 0 where
  pub slot : ℕ
  pub block : Hash256

-- The parts of a beacon block that the source reads. `R` stands for the execution requests, `F` for
-- what the source does not read of a fork that it does not support.
pub record DenebBlock : Type 0 where
  pub execution_payload : ExecutionPayloadDeneb
  pub blob_kzg_commitments : List Bytes
  pub parent_root : Hash256

pub record ElectraBlock (R : Type 0) : Type 0 where
  pub deneb_block : DenebBlock
  pub execution_requests : R

pub data BeaconBlock (R : Type 0) : Type 0 where
  base altair gloas : BeaconBlock R
  bellatrix_block : ExecutionPayloadBellatrix → BeaconBlock R
  capella_block : ExecutionPayloadCapella → BeaconBlock R
  deneb_block : DenebBlock → BeaconBlock R
  electra_block fulu_block : ElectraBlock R → BeaconBlock R

-- SHA-256, and the greatest number of elements of a `VariableList` of versioned hashes.
pub record Beacon : Type 0 where
  pub sha256 : Bytes → Bytes
  pub max_hashes : ℕ

-- `VersionedHash::from`: the number that 32 bytes are.
abbrev pub number_from : ℕ → Bytes → ℕ
number_from n [] = n
number_from n (c ∷ bytes) = number_from (n * 256 + c) bytes

-- `hash[0] = 0x01`.
abbrev pub set_first : ℕ → Bytes → Bytes
set_first c [] = []
set_first c (d ∷ bytes) = c ∷ bytes

module _ (beacon : Beacon) where
  unfoldable pub kzg_commitment_to_versioned_hash : Bytes → Hash256
  kzg_commitment_to_versioned_hash commitment =
      number_from 0 (set_first 1 (beacon.sha256 commitment))

  -- `VariableList::new`.
  abbrev pub variable_list : List Hash256 → Result Text (List Hash256)
  variable_list hashes =
      if leb (length hashes) beacon.max_hashes then ok hashes else err (text "OutOfBounds")

  unfoldable pub versioned_hashes : DenebBlock → Result Text (List Hash256)
  unfolding kzg_commitment_to_versioned_hash
  versioned_hashes b = variable_list (map kzg_commitment_to_versioned_hash b.blob_kzg_commitments)

  -- A panic, of `unreachable!` or `unimplemented!`, is none.
  unfoldable pub new_payload_request_from_beacon_block :
      {R : Type 0} → BeaconBlock R → Option (Result Text (NewPayloadRequest R))
  new_payload_request_from_beacon_block base = none
  new_payload_request_from_beacon_block altair = none
  new_payload_request_from_beacon_block gloas = none
  new_payload_request_from_beacon_block (bellatrix_block payload) = some (ok (bellatrix payload))
  new_payload_request_from_beacon_block (capella_block payload) = some (ok (capella payload))
  new_payload_request_from_beacon_block (deneb_block b) = some (do
    hashes ← versioned_hashes b
    ok (
        deneb (record {
          execution_payload = b.execution_payload;
          versioned_hashes = hashes;
          parent_beacon_block_root = b.parent_root;
        })))
  new_payload_request_from_beacon_block (electra_block b) = some (do
    hashes ← versioned_hashes b.deneb_block
    ok (
        electra (record {
          execution_payload = b.deneb_block.execution_payload;
          versioned_hashes = hashes;
          parent_beacon_block_root = b.deneb_block.parent_root;
          execution_requests = b.execution_requests;
        })))
  new_payload_request_from_beacon_block (fulu_block b) = some (do
    hashes ← versioned_hashes b.deneb_block
    ok (
        fulu (record {
          execution_payload = b.deneb_block.execution_payload;
          versioned_hashes = hashes;
          parent_beacon_block_root = b.deneb_block.parent_root;
          execution_requests = b.execution_requests;
        })))

-- A response of the beacon node: the header `Eth-Consensus-Version`, if there is one, beside it.
pub record BlockResponse : Type 0 where
  pub response : Response
  pub consensus_version : Option (Result Text Text)

-- `get_beacon_block`, for what the send returns; `parse_fork` and `from_ssz_bytes_by_fork` are
-- lighthouse's, and `show_status` is the `Display` of a status.
unfoldable pub get_beacon_block :
    {R F : Type 0}
    → (Text → Result Text F)
    → (Bytes → F → Result Text (BeaconBlock R))
    → (ℕ → Text)
    → Result Text BlockResponse
    → Result Text (BeaconBlock R)
get_beacon_block parse_fork from_ssz_bytes_by_fork show_status sent = do
  resp ← sent
  if is_success resp.response.status
      then (do
        header ← ok_or resp.consensus_version (text "missing Eth-Consensus-Version")
        version ← header
        fork_name ← parse_fork version
        bytes ← resp.response.body
        from_ssz_bytes_by_fork bytes fork_name)
      else err (
          show_status resp.response.status
          ++ (text ": " ++ (elim resp.response.body [ ok body ↦ body | err e ↦ [] ])))

abbrev after : Block → List Block × Option Text → List Block × Option Text
after block (blocks, e) = (block ∷ blocks, e)

-- The body of the stream of `subscribe_block_events`: what it yields for what the event source
-- yields, and the error that ends it.
unfoldable pub block_events :
    (Text → Result Text Block) → List (Result Text SseEvent) → List Block × Option Text
block_events read [] = ([], none)
block_events read (ok opened ∷ rest) = block_events read rest
block_events read (ok (message name content) ∷ rest) =
    let later = block_events read rest in
    if text_eq name (text "block")
    then (elim (read content) [ ok block ↦ after block later | err e ↦ ([], some e) ])
    else later
block_events read (err e ∷ rest) = ([], some e)
