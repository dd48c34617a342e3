-- ===== src/External.antt =====
-- What the server takes from crates that are not part of the repository and from the machine:
-- the EL's types, the conversion of a payload to a block, clock arithmetic and formatting.
use zkboost.Prelude.{ℕ, Text, Result}
use zkboost.Payload.{Hash256}
use zkboost.Payload.Conversion.{ExecutionData}

pub record External : Type 1 where
  pub Block : Type 0
  pub Witness : Type 0
  pub ChainConfig : Type 0
  pub ExecutionRequests : Type 0
  -- Seconds as an `f64`.
  pub Seconds : Type 0
  pub requests_hash : ExecutionRequests → Hash256
  -- `try_into_block_with_sidecar` of alloy, with the text of its error.
  pub try_into_block : ExecutionData → Result Text Block
  pub number : Block → ℕ
  -- `timestamp_secs - block_timestamp as f64`.
  pub since : Seconds → ℕ → Seconds
  -- The `Display` of a hash, and `{:.02}` of a duration's seconds.
  pub show_hash : Hash256 → Text
  pub show_seconds : ℕ → Text
