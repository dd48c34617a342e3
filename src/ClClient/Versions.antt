-- ===== src/ClClient/Versions.antt =====
-- crates/mock-zkattestor/src/cl_client.rs: the payload request of a beacon block, and the version of
-- its versioned hashes.
use zkboost.Prelude.{
  ℕ, zero, suc, ◌+◌, ◌*◌, ◌^◌, ◌≤◌, ◌<◌, ◌≡◌, refl, ap, subst, arith, List, [], ◌∷◌, map, length,
  leb, ok, ◌>>=◌, >>=-eq-ok, some, All, Bool-cases, inl, inr,
}
use zkboost.Payload.{
  Hash256, Bytes, NewPayloadRequest, bellatrix, capella, deneb, electra, fulu, gloas, block_hash,
}
use zkboost.ClClient.{
  BeaconBlock, base, altair, gloas, bellatrix_block, capella_block, deneb_block, electra_block,
  fulu_block, Beacon, number_from, set_first, kzg_commitment_to_versioned_hash, versioned_hashes,
  variable_list, DenebBlock, new_payload_request_from_beacon_block,
}

-- A number times 256 to a power.
abbrev shift : ℕ → ℕ → ℕ
shift zero n = n
shift (suc k) n = shift k (n * 256)

shift_mono : (k m n : ℕ) → m ≤ n → shift k m ≤ shift k n
shift_mono zero m n h = h
shift_mono (suc k) m n h = shift_mono k (m * 256) (n * 256) (omega arith)

number_from-bounds :
    (n : ℕ) (bytes : Bytes)
    → All (λ b. b < 256) bytes
    → (shift (length bytes) n ≤ number_from n bytes)
      × (number_from n bytes < shift (length bytes) (n + 1))
number_from-bounds n [] h = (omega arith, omega arith)
number_from-bounds n (c ∷ bytes) h =
    let b = number_from-bounds (n * 256 + c) bytes h.1 in
    let low = shift_mono (length bytes) (n * 256) (n * 256 + c) (omega arith) in
    let high = shift_mono (length bytes) (n * 256 + c + 1) ((n + 1) * 256) (omega (arith, h.0)) in
    (omega (arith, b.0, low), omega (arith, b.1, high))

-- A number of 32 bytes the first of which is 1, the version of KZG commitments.
abbrev pub IsVersioned : Hash256 → Type 0
IsVersioned h = (256 ^ 31 ≤ h) × (h < 2 * 256 ^ 31)

set_first-IsVersioned :
    (bytes : Bytes)
    → length bytes ≡ 32
    → All (λ b. b < 256) bytes
    → IsVersioned (number_from 0 (set_first 1 bytes))
set_first-IsVersioned [] e h = absurd (omega arith)
set_first-IsVersioned (c ∷ bytes) e h =
    let b = number_from-bounds 1 bytes h.1 in
    let k : length bytes ≡ 31 = omega arith in
    let low = subst (λ k. shift k 1 ≤ number_from 1 bytes) k b.0 in
    let high = subst (λ k. number_from 1 bytes < shift k 2) k b.1 in (low, high)

module _ {R : Type 0} where
  -- What the payload request of a beacon block is about.
  abbrev pub versioned_hashes_of : NewPayloadRequest R → List Hash256
  versioned_hashes_of (bellatrix payload) = []
  versioned_hashes_of (capella payload) = []
  versioned_hashes_of (deneb inner) = inner.versioned_hashes
  versioned_hashes_of (electra inner) = inner.versioned_hashes
  versioned_hashes_of (fulu inner) = inner.versioned_hashes
  versioned_hashes_of (gloas inner) = inner.versioned_hashes

  abbrev pub commitments : BeaconBlock R → List Bytes
  commitments base = []
  commitments altair = []
  commitments gloas = []
  commitments (bellatrix_block payload) = []
  commitments (capella_block payload) = []
  commitments (deneb_block b) = b.blob_kzg_commitments
  commitments (electra_block b) = b.deneb_block.blob_kzg_commitments
  commitments (fulu_block b) = b.deneb_block.blob_kzg_commitments

  abbrev pub payload_hash : BeaconBlock R → Hash256
  payload_hash base = 0
  payload_hash altair = 0
  payload_hash gloas = 0
  payload_hash (bellatrix_block payload) = payload.block_hash
  payload_hash (capella_block payload) = payload.block_hash
  payload_hash (deneb_block b) = b.execution_payload.block_hash
  payload_hash (electra_block b) = b.deneb_block.execution_payload.block_hash
  payload_hash (fulu_block b) = b.deneb_block.execution_payload.block_hash

-- The request is for the block of the payload, and has for each KZG commitment one hash of
-- version 1.
pub record IsRequestOf {R : Type 0} (block : BeaconBlock R) (r : NewPayloadRequest R) : Type 0 where
  pub same_block : block_hash r ≡ payload_hash block
  pub each : length (versioned_hashes_of r) ≡ length (commitments block)
  pub all_versioned : All IsVersioned (versioned_hashes_of r)

some-injective : {A : Type 0} {a b : A} → some a ≡ some b → a ≡ b
some-injective h = cc

module _ (beacon : Beacon) (sized : (c : Bytes) → length (beacon.sha256 c) ≡ 32)
    (in_bytes : (c : Bytes) → All (λ b. b < 256) (beacon.sha256 c)) where
  map-IsVersioned :
      (cs : List Bytes)
      → (length (map (kzg_commitment_to_versioned_hash beacon) cs) ≡ length cs)
        × All IsVersioned (map (kzg_commitment_to_versioned_hash beacon) cs)
  unfolding kzg_commitment_to_versioned_hash
  map-IsVersioned [] = (refl, tt)
  map-IsVersioned (c ∷ cs) =
      let rest = map-IsVersioned cs in
      (ap suc rest.0, (set_first-IsVersioned (beacon.sha256 c) (sized c) (in_bytes c), rest.1))

  -- The hashes that a block's request holds.
  record Versions (cs : List Bytes) (hashes : List Hash256) : Type 0 where
    pub each : length hashes ≡ length cs
    pub all_versioned : All IsVersioned hashes
    pub at_most : length hashes ≤ beacon.max_hashes

  versioned_hashes-Versions :
      (b : DenebBlock) (hashes : List Hash256)
      → versioned_hashes beacon b ≡ ok hashes
      → Versions b.blob_kzg_commitments hashes
  unfolding versioned_hashes
  versioned_hashes-Versions b hashes h =
      elim (Bool-cases (
        leb (length (map (kzg_commitment_to_versioned_hash beacon) b.blob_kzg_commitments))
          beacon.max_hashes)) [
            | inl e ↦
                let h' = rw (variable_list, e) at h in
                let same : map (kzg_commitment_to_versioned_hash beacon) b.blob_kzg_commitments
                    ≡ hashes =
                  cc in
                let m = map-IsVersioned b.blob_kzg_commitments in
                subst (Versions b.blob_kzg_commitments) same
                  (record { each = m.0; all_versioned = m.1; at_most = ground (arith, e) })
            | inr e ↦ let h' = rw (variable_list, e) at h in absurd (cc)
          ]

  with_hashes :
      {R : Type 0} (block : BeaconBlock R) (b : DenebBlock)
      (make : List Hash256 → NewPayloadRequest R) (r : NewPayloadRequest R)
      → ((hashes : List Hash256)
          → Versions b.blob_kzg_commitments hashes
          → IsRequestOf block (make hashes))
      → (versioned_hashes beacon b >>= λ hashes. ok (make hashes)) ≡ ok r
      → IsRequestOf block r
  with_hashes block b make r made h =
      let (hashes, e, k) = >>=-eq-ok (versioned_hashes beacon b) _ h in
      let same : make hashes ≡ r = cc in
      subst (IsRequestOf block) same (made hashes (versioned_hashes-Versions b hashes e))

  -- Where SHA-256 gives 32 bytes: the request of a beacon block is for the block of its payload, and
  -- has for each KZG commitment one hash, a number of 32 bytes of which the first is 1.
  pub new_payload_request-IsRequestOf :
      {R : Type 0} (block : BeaconBlock R) (r : NewPayloadRequest R)
      → new_payload_request_from_beacon_block beacon block ≡ some (ok r)
      → IsRequestOf block r
  unfolding new_payload_request_from_beacon_block block_hash
  new_payload_request-IsRequestOf base r h = absurd (cc)
  new_payload_request-IsRequestOf altair r h = absurd (cc)
  new_payload_request-IsRequestOf gloas r h = absurd (cc)
  new_payload_request-IsRequestOf (bellatrix_block payload) r h =
      let same : bellatrix payload ≡ r = cc in
      subst (IsRequestOf (bellatrix_block payload)) same
        (record { same_block = refl; each = refl; all_versioned = tt })
  new_payload_request-IsRequestOf (capella_block payload) r h =
      let same : capella payload ≡ r = cc in
      subst (IsRequestOf (capella_block payload)) same
        (record { same_block = refl; each = refl; all_versioned = tt })
  new_payload_request-IsRequestOf (deneb_block b) r h =
      with_hashes (deneb_block b) b _ r
        (λ hashes v. record { same_block = refl; each = v.each; all_versioned = v.all_versioned })
        (some-injective h)
  new_payload_request-IsRequestOf (electra_block b) r h =
      with_hashes (electra_block b) b.deneb_block _ r
        (λ hashes v. record { same_block = refl; each = v.each; all_versioned = v.all_versioned })
        (some-injective h)
  new_payload_request-IsRequestOf (fulu_block b) r h =
      with_hashes (fulu_block b) b.deneb_block _ r
        (λ hashes v. record { same_block = refl; each = v.each; all_versioned = v.all_versioned })
        (some-injective h)
