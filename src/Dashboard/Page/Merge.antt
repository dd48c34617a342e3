-- ===== src/Dashboard/Page/Merge.antt =====
-- crates/server/src/http/dashboard/index.html: the proofs of a request, merged into a block's.
use zkboost.Prelude.{
  ◌≡◌, refl, ap, sym, ◌∙◌, ◌⊎◌, inl, inr, arith, List, [], ◌∷◌, some, none, get, insert_entry,
  get-insert_entry, All, contains, true, if_pos, if_neg,
}
use zkboost.ProofType.{ProofType, proof_type_dec}
use zkboost.Payload.{Hash256}
use zkboost.External.{External}
use zkboost.Lru.{LruCache}
use zkboost.Dashboard.{HistoricalProof, HistoricalBlock}
use zkboost.Dashboard.Service.{new_proof, or_insert, add_proofs}
use zkboost.Dashboard.Page.{Proofs, merge, requested_proofs}

module _ (x : External) where
  open x use {Seconds}

  module _ (v : HistoricalProof Seconds) where
    -- Every entry has the value `v`.
    abbrev Uniform : Proofs x → Type 0
    Uniform d = All (λ e. e.1 ≡ v) d

    insert_entry_same :
        (p : ProofType) (m : Proofs x)
        → get proof_type_dec m p ≡ some v
        → insert_entry proof_type_dec p v m ≡ m
    unfolding insert_entry
    insert_entry_same p [] h = absurd (cc)
    insert_entry_same p ((j, w) ∷ m) h = ground (arith, insert_entry_same p m)

    Uniform-insert_entry :
        (p : ProofType) (d : Proofs x) → Uniform d → Uniform (insert_entry proof_type_dec p v d)
    unfolding insert_entry
    Uniform-insert_entry p [] u = (refl, tt)
    Uniform-insert_entry p ((j, w) ∷ d) u = elim (proof_type_dec j p) [
      | yes e ↦ rw (if_pos _ e) (refl, u.1)
      | no n ↦ rw (if_neg _ n) (u.0, Uniform-insert_entry p d u.1)
    ]

    get-merge :
        (p : ProofType) (m d : Proofs x)
        → Uniform d
        → get proof_type_dec m p ≡ some v
        → get proof_type_dec (merge x m d) p ≡ some v
    unfolding merge
    get-merge p m [] u h = h
    get-merge p m ((j, w) ∷ d) u h =
        get-merge p (insert_entry proof_type_dec j w m) d u.1
          (let same = u.0 in get-insert_entry proof_type_dec j p w m ∙ ground arith)

    get-merge_hit :
        (p : ProofType) (m d : Proofs x)
        → Uniform d
        → get proof_type_dec d p ≡ some v
        → get proof_type_dec (merge x m d) p ≡ some v
    unfolding merge
    get-merge_hit p m [] u h = absurd (cc)
    get-merge_hit p m ((j, w) ∷ d) u h = elim (proof_type_dec j p) [
      | yes e ↦ get-merge p (insert_entry proof_type_dec j w m) d u.1 (
          get-insert_entry proof_type_dec j p w m ∙ if_pos (proof_type_dec j p) e _ _ ∙ ap some u.0)
      | no n ↦
          get-merge_hit p (insert_entry proof_type_dec j w m) d u.1
            (sym (if_neg (proof_type_dec j p) n _ _) ∙ h)
    ]

    merge-insert_entry :
        (p : ProofType) (m d : Proofs x)
        → Uniform d
        → merge x m (insert_entry proof_type_dec p v d)
          ≡ insert_entry proof_type_dec p v (merge x m d)
    unfolding merge insert_entry
    merge-insert_entry p m [] u = refl
    merge-insert_entry p m ((j, w) ∷ d) u = elim (proof_type_dec j p) [
      | yes e ↦
          let m' = insert_entry proof_type_dec p v m in
          let stored =
            get-insert_entry proof_type_dec p p v m ∙ if_pos (proof_type_dec p p) refl _ _ in
          rw (if_pos _ e, e, u.0)
            (sym (insert_entry_same p (merge x m' d) (get-merge p m' d u.1 stored)))
      | no n ↦ rw (if_neg _ n) (merge-insert_entry p (insert_entry proof_type_dec j w m) d u.1)
    ]

  -- A request gives each of its proof types a new record, whatever record the block has.
  module _ (blocks : LruCache Hash256 (HistoricalBlock Seconds)) (started : Seconds) where
    requested_proofs-get :
        (ps : List ProofType) (d : Proofs x) (p : ProofType)
        → (get proof_type_dec d p ≡ some (new_proof x (some started)))
          ⊎ (contains proof_type_dec ps p ≡ true)
        → get proof_type_dec (requested_proofs x blocks started ps d) p
          ≡ some (new_proof x (some started))
    unfolding requested_proofs
    requested_proofs-get [] d p (inl h) = h
    requested_proofs-get [] d p (inr h) = absurd (cc)
    requested_proofs-get (q ∷ ps) d p h =
        let v = new_proof x (some started) in
        let inserted = get-insert_entry proof_type_dec q p v d in
        requested_proofs-get ps (insert_entry proof_type_dec q v d) p (elim (proof_type_dec q p) [
          | yes e ↦ inl (inserted ∙ if_pos (proof_type_dec q p) e _ _)
          | no n ↦ elim h [
            | inl found ↦ inl (inserted ∙ if_neg (proof_type_dec q p) n _ _ ∙ found)
            | inr asked ↦ inr (sym (if_neg (proof_type_dec q p) n true _) ∙ asked)
          ]
        ])

    Uniform-requested_proofs :
        (ps : List ProofType) (d : Proofs x)
        → Uniform (new_proof x (some started)) d
        → Uniform (new_proof x (some started)) (requested_proofs x blocks started ps d)
    unfolding requested_proofs
    Uniform-requested_proofs [] d u = u
    Uniform-requested_proofs (p ∷ ps) d u =
        Uniform-requested_proofs ps (insert_entry proof_type_dec p (new_proof x (some started)) d)
          (Uniform-insert_entry (new_proof x (some started)) p d u)

    pub merge-requested_proofs-get :
        (ps : List ProofType) (m : Proofs x) (p : ProofType)
        → contains proof_type_dec ps p ≡ true
        → get proof_type_dec (merge x m (requested_proofs x blocks started ps [])) p
          ≡ some (new_proof x (some started))
    merge-requested_proofs-get ps m p h =
        get-merge_hit (new_proof x (some started)) p m (requested_proofs x blocks started ps [])
          (Uniform-requested_proofs ps [] tt) (requested_proofs-get ps [] p (inr h))

  -- Where each proof type of a request has no record yet, the page and the server add the same
  -- records.
  module _ (blocks : LruCache Hash256 (HistoricalBlock Seconds)) (started : Seconds) where
    -- The record is missing or as a request makes it.
    abbrev pub IsNew : ProofType → Proofs x → Type 0
    IsNew p m =
        (get proof_type_dec m p ≡ none)
        ⊎ (get proof_type_dec m p ≡ some (new_proof x (some started)))

    or_insert-IsNew :
        (p : ProofType) (m : Proofs x)
        → IsNew p m
        → or_insert x p (new_proof x (some started)) m
          ≡ insert_entry proof_type_dec p (new_proof x (some started)) m
    unfolding or_insert
    or_insert-IsNew p m (inl e) = rw (or_insert, e) refl
    or_insert-IsNew p m (inr e) =
        rw (or_insert, e) (sym (insert_entry_same (new_proof x (some started)) p m e))

    insert_entry-IsNew :
        (p q : ProofType) (m : Proofs x)
        → IsNew q m
        → IsNew q (insert_entry proof_type_dec p (new_proof x (some started)) m)
    insert_entry-IsNew p q m h = elim (proof_type_dec p q) [
      | yes e ↦ inr (get-insert_entry proof_type_dec p q _ m ∙ if_pos (proof_type_dec p q) e _ _)
      | no n ↦
          rw
            (
              get-insert_entry proof_type_dec p q (new_proof x (some started)) m,
              if_neg (proof_type_dec p q) n,
            )
            h
    ]

    All-IsNew :
        (p : ProofType) (m : Proofs x) (ps : List ProofType)
        → All (λ q. IsNew q m) ps
        → All (λ q. IsNew q (insert_entry proof_type_dec p (new_proof x (some started)) m)) ps
    All-IsNew p m [] h = tt
    All-IsNew p m (q ∷ ps) h = (insert_entry-IsNew p q m h.0, All-IsNew p m ps h.1)

    pub merge-requested_proofs :
        (ps : List ProofType) (m d : Proofs x)
        → Uniform (new_proof x (some started)) d
        → All (λ p. IsNew p (merge x m d)) ps
        → merge x m (requested_proofs x blocks started ps d) ≡ add_proofs x started ps (merge x m d)
    unfolding requested_proofs add_proofs
    merge-requested_proofs [] m d u h = refl
    merge-requested_proofs (p ∷ ps) m d u h =
        let v = new_proof x (some started) in
        let step = merge-insert_entry v p m d u in
        merge-requested_proofs ps m (insert_entry proof_type_dec p v d)
          (Uniform-insert_entry v p d u) (rw step (All-IsNew p (merge x m d) ps h.1))
        ∙ ap (add_proofs x started ps) (step ∙ sym (or_insert-IsNew p (merge x m d) h.0))
