-- ===== src/Tests/World.antt =====
-- What the tests put in the place of the code outside the repository.
use zkboost.Prelude.{ℕ, zero, suc, ◌-◌, [], ◌∷◌, ◌++◌, Text, text, ok}
use zkboost.Payload.{ExecutionPayloadBellatrix, NewPayloadRequest, bellatrix, Bytes}
use zkboost.External.{External}
use zkboost.Lru.{LruCache}
use zkboost.Lru.Recent.{recent_cache}
use zkboost.Proof.{Key, key_dec}

-- A number in ones.
abbrev pub ones : ℕ → Text
ones zero = []
ones (suc n) = 49 ∷ ones n

abbrev pub world : External
world = record {
  Block = ℕ;
  Witness = ℕ;
  ChainConfig = ℕ;
  ExecutionRequests = ℕ;
  Seconds = ℕ;
  requests_hash = λ r. r;
  try_into_block = λ d. ok 7;
  number = λ b. b;
  since = λ now t. now - t;
  show_hash = λ h. text "0x" ++ ones h;
  show_seconds = λ d. text "1.00";
}

abbrev pub proof_lru : LruCache Key Bytes
proof_lru = recent_cache key_dec

abbrev pub payload : ExecutionPayloadBellatrix
payload = record {
  parent_hash = 4;
  fee_recipient = 0;
  state_root = 0;
  receipts_root = 0;
  logs_bloom = [];
  prev_randao = 0;
  block_number = 7;
  gas_limit = 30000000;
  gas_used = 21000;
  timestamp = 100;
  extra_data = [];
  base_fee_per_gas = 7;
  block_hash = 5;
  transactions = (1 ∷ 2 ∷ []) ∷ [];
}

abbrev pub request : NewPayloadRequest ℕ
request = bellatrix payload
