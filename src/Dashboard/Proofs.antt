-- ===== src/Dashboard/Proofs.antt =====
-- crates/server/src/dashboard.rs: the records of a block's proofs.
use zkboost.Prelude.{
  ◌≡◌, refl, sym, ◌∙◌, subst, ◌≢◌, inl, inr, arith, List, [], ◌∷◌, true, none, Option, some, get,
  get-insert_entry, contains, Option-cases, if_pos, if_neg,
}
use zkboost.ProofType.{ProofType, proof_type_dec}
use zkboost.External.{External}
use zkboost.Dashboard.{HistoricalProof}
use zkboost.Dashboard.Service.{or_insert, add_proofs, update_proof, new_proof}

module _ (x : External) where
  open x use {Seconds, since}

  module _ (q : ProofType) (value : HistoricalProof Seconds)
      (m : List (ProofType × HistoricalProof Seconds)) where
    or_insert-keep :
        (p : ProofType) (e : HistoricalProof Seconds)
        → get proof_type_dec m p ≡ some e
        → get proof_type_dec (or_insert x q value m) p ≡ some e
    unfolding or_insert
    or_insert-keep p e h = elim (Option-cases (get proof_type_dec m q)) [
      | inl n ↦
          let other : q ≢ p = λ same. cc in
          rw (or_insert, n)
            (get-insert_entry proof_type_dec q p value m
              ∙ if_neg (proof_type_dec q p) other _ _
              ∙ h)
      | inr (o, n) ↦ rw (or_insert, n) h
    ]

    or_insert_new :
        get proof_type_dec m q ≡ none → get proof_type_dec (or_insert x q value m) q ≡ some value
    unfolding or_insert
    or_insert_new n =
        rw (or_insert, n)
          (get-insert_entry proof_type_dec q q value m
            ∙ if_pos (proof_type_dec q q) refl (some value) _)

    or_insert_other :
        (p : ProofType)
        → q ≢ p
        → get proof_type_dec m p ≡ none
        → get proof_type_dec (or_insert x q value m) p ≡ none
    unfolding or_insert
    or_insert_other p other h = elim (Option-cases (get proof_type_dec m q)) [
      | inl n ↦
          rw (or_insert, n)
            (get-insert_entry proof_type_dec q p value m
              ∙ if_neg (proof_type_dec q p) other _ _
              ∙ h)
      | inr (o, n) ↦ rw (or_insert, n) h
    ]

  -- Records that are there stay as they are.
  pub add_proofs-keep :
      (started : Seconds) (ps : List ProofType) (m : List (ProofType × HistoricalProof Seconds))
      (p : ProofType) (e : HistoricalProof Seconds)
      → get proof_type_dec m p ≡ some e
      → get proof_type_dec (add_proofs x started ps m) p ≡ some e
  unfolding add_proofs
  add_proofs-keep started [] m p e h = h
  add_proofs-keep started (q ∷ ps) m p e h =
      add_proofs-keep started ps (or_insert x q (new_proof x (some started)) m) p e
        (or_insert-keep q (new_proof x (some started)) m p e h)

  add_proofs_new :
      (started : Seconds) (ps : List ProofType) (m : List (ProofType × HistoricalProof Seconds))
      (p : ProofType)
      → contains proof_type_dec ps p ≡ true
      → get proof_type_dec m p ≡ none
      → get proof_type_dec (add_proofs x started ps m) p ≡ some (new_proof x (some started))
  unfolding add_proofs
  add_proofs_new started [] m p h n = absurd (cc)
  add_proofs_new started (q ∷ ps) m p h n =
      let v = new_proof x (some started) in
      elim (proof_type_dec q p) [
        | yes same ↦
            let n' = subst (λ r. get proof_type_dec m r ≡ none) (sym same) n in
            add_proofs-keep started ps (or_insert x q v m) p v (
              subst (λ r. get proof_type_dec (or_insert x q v m) r ≡ some v) same
                (or_insert_new q v m n'))
        | no other ↦
            add_proofs_new started ps (or_insert x q v m) p
              (sym (if_neg (proof_type_dec q p) other true _) ∙ h) (or_insert_other q v m p other n)
      ]

  -- The record that is there, or the other one.
  abbrev pub or_new :
      Option (HistoricalProof Seconds) → HistoricalProof Seconds → HistoricalProof Seconds
  or_new none proof = proof
  or_new (some found) proof = found

  -- A proof type that is asked for keeps its record, or has a new one.
  pub add_proofs-get :
      (started : Seconds) (ps : List ProofType) (m : List (ProofType × HistoricalProof Seconds))
      (p : ProofType)
      → contains proof_type_dec ps p ≡ true
      → get proof_type_dec (add_proofs x started ps m) p
        ≡ some (or_new (get proof_type_dec m p) (new_proof x (some started)))
  add_proofs-get started ps m p h = elim (Option-cases (get proof_type_dec m p)) [
    | inl n ↦ rw n (add_proofs_new started ps m p h n)
    | inr (e, n) ↦ rw n (add_proofs-keep started ps m p e n)
  ]

  pub update_proof-get :
      (p : ProofType) (assign : HistoricalProof Seconds → HistoricalProof Seconds)
      (m : List (ProofType × HistoricalProof Seconds)) (e : HistoricalProof Seconds)
      → get proof_type_dec m p ≡ some e
      → get proof_type_dec (update_proof x p assign m) p ≡ some (assign e)
  unfolding update_proof
  update_proof-get p assign m e h =
      rw (update_proof, h, get-insert_entry proof_type_dec p p (assign e) m) (ground arith)
