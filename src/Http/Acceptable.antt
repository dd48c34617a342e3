-- ===== src/Http/Acceptable.antt =====
-- crates/server/src/http/v1/post_execution_proof_requests.rs: the checks on the proof types of a
-- request.
use zkboost.Prelude.{
  ℕ, ◌≤◌, ◌≡◌, refl, arith, List, [], ◌∷◌, Bool, true, false, not, ok, >>-eq-ok, ensure-eq-ok, inl,
  inr, get, is_some, is_empty, extend, length, count, All, ◌==◌, Bool-cases, length-extend,
  length-extend_distinct,
}
use zkboost.ProofType.{ProofType, proof_type_dec}
use zkboost.External.{External}
use zkboost.Zkvm.{Backends}
use zkboost.Http.{Zkvms, check_distinct, check_configured, check_provers, only_verifies}

eq_of_== : (m n : ℕ) → (m == n) ≡ true → m ≡ n
eq_of_== m n h = ground arith

==_of_eq : (m n : ℕ) → m ≡ n → (m == n) ≡ true
==_of_eq m n h = ground arith

pub not-true : (b : Bool) → not b ≡ true → b ≡ false
not-true b h = ground arith

pub check_distinct-eq-ok :
    (ps set : List ProofType)
    → check_distinct ps ≡ ok set
    → (set ≡ extend proof_type_dec [] ps) × ((p : ProofType) → count proof_type_dec p ps ≤ 1)
unfolding check_distinct
check_distinct-eq-ok ps set h =
    elim (Bool-cases (length (extend proof_type_dec [] ps) == length ps)) [
      | inl e ↦
          let found = rw e at h in
          let whole = eq_of_== (length (extend proof_type_dec [] ps)) (length ps) e in
          (cc, λ p. omega (arith, length-extend_distinct proof_type_dec [] ps p (omega arith)))
      | inr e ↦ let found = rw e at h in absurd (cc)
    ]

pub check_distinct_ok :
    (ps : List ProofType)
    → ((p : ProofType) → count proof_type_dec p ps ≤ 1)
    → check_distinct ps ≡ ok (extend proof_type_dec [] ps)
unfolding check_distinct
check_distinct_ok ps h =
    let whole = length-extend proof_type_dec [] ps (λ p. omega (arith, h p)) in
    rw (==_of_eq (length (extend proof_type_dec [] ps)) (length ps) (omega (arith, whole)))

module _ {x : External} (b : Backends x) where
  -- A proof type with an instance that can prove.
  abbrev pub HasProver : Zkvms b → ProofType → Type 0
  HasProver zkvms p =
      (is_some (get proof_type_dec zkvms p) ≡ true) × (only_verifies b zkvms p ≡ false)

  -- A request that names proof types, none of them twice, which all have a prover.
  pub record IsAcceptable (zkvms : Zkvms b) (ps : List ProofType) : Type 0 where
    pub some_type : is_empty ps ≡ false
    pub distinct : (p : ProofType) → count proof_type_dec p ps ≤ 1
    pub provers : All (HasProver zkvms) ps

  pub checks-passed :
      (zkvms : Zkvms b) (ps : List ProofType)
      → check_configured b zkvms ps ≡ ok tt
      → check_provers b zkvms ps ≡ ok tt
      → All (HasProver zkvms) ps
  unfolding check_configured check_provers
  checks-passed zkvms [] c v = tt
  checks-passed zkvms (p ∷ ps) c v =
      let (e, rest) = >>-eq-ok _ _ c in
      let (e', rest') = >>-eq-ok _ _ v in
      let prover = ensure-eq-ok (not (only_verifies b zkvms p)) _ e' in
      (
        (
          ensure-eq-ok (is_some (get proof_type_dec zkvms p)) _ e,
          not-true (only_verifies b zkvms p) prover,
        ),
        checks-passed zkvms ps rest rest',
      )

  pub checks_pass :
      (zkvms : Zkvms b) (ps : List ProofType)
      → All (HasProver zkvms) ps
      → (check_configured b zkvms ps ≡ ok tt) × (check_provers b zkvms ps ≡ ok tt)
  unfolding check_configured check_provers
  checks_pass zkvms [] h = (refl, refl)
  checks_pass zkvms (p ∷ ps) h = let (c, v) = checks_pass zkvms ps h.1 in (rw h.0.0 c, rw h.0.1 v)
