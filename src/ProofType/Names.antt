-- ===== src/ProofType/Names.antt =====
-- The names of crates/types/src/proof_type.rs: printing a proof type and parsing it back.
use zkboost.Prelude.{
  ◌≡◌, refl, ◌∙◌, ◌↔◌, ◌≢◌, inl, inr, Text, text_eq, text_eq_sound, Result, ok, err, if◌then◌else◌,
  Bool-cases,
}
use zkboost.ProofType.{
  ProofType, ProofTypeParseError, ethrex_risc0, ethrex_sp1, ethrex_zisk, reth_openvm, reth_risc0,
  reth_sp1, reth_zisk, proof_type_parse_error, as_str, from_str,
}

pub from_str-as_str : (p : ProofType) → from_str (as_str p) ≡ ok p
unfolding from_str as_str
from_str-as_str ethrex_risc0 = refl
from_str-as_str ethrex_sp1 = refl
from_str-as_str ethrex_zisk = refl
from_str-as_str reth_openvm = refl
from_str-as_str reth_risc0 = refl
from_str-as_str reth_sp1 = refl
from_str-as_str reth_zisk = refl

-- What `from_str` returns: the type of that name, or the text itself in the error.
abbrev Parsed : Text → Result ProofTypeParseError ProofType → Type 0
Parsed s (ok p) = s ≡ as_str p
Parsed s (err e) = e ≡ proof_type_parse_error s

-- One arm of the `match`.
arm-Parsed :
    (s t : Text) (p : ProofType) (rest : Result ProofTypeParseError ProofType)
    → t ≡ as_str p
    → Parsed s rest
    → Parsed s (if text_eq s t then ok p else rest)
arm-Parsed s t p rest name h = elim (Bool-cases (text_eq s t)) [
  | inl hit ↦ rw hit (text_eq_sound s t hit ∙ name)
  | inr miss ↦ rw miss h
]

from_str-Parsed : (s : Text) → Parsed s (from_str s)
unfolding from_str as_str
from_str-Parsed s = arm-Parsed s _ ethrex_risc0 _ refl (
    arm-Parsed s _ ethrex_sp1 _ refl (
      arm-Parsed s _ ethrex_zisk _ refl (
        arm-Parsed s _ reth_openvm _ refl (
          arm-Parsed s _ reth_risc0 _ refl
            (arm-Parsed s _ reth_sp1 _ refl (arm-Parsed s _ reth_zisk _ refl refl))))))

Parsed-ok :
    (s : Text) (r : Result ProofTypeParseError ProofType) (p : ProofType)
    → Parsed s r
    → r ≡ ok p
    → s ≡ as_str p
Parsed-ok s (ok q) p h e = h ∙ cc
Parsed-ok s (err x) p h e = cc

Parsed-err :
    (s : Text) (r : Result ProofTypeParseError ProofType) (e : ProofTypeParseError)
    → Parsed s r
    → r ≡ err e
    → e ≡ proof_type_parse_error s
Parsed-err s (ok q) e h h' = cc
Parsed-err s (err x) e h h' = cc

-- A text parses to a proof type exactly when it is the name of that proof type.
pub from_str-eq-ok_iff : (s : Text) (p : ProofType) → (from_str s ≡ ok p) ↔ (s ≡ as_str p)
from_str-eq-ok_iff s p =
    (Parsed-ok s (from_str s) p (from_str-Parsed s), λ e. rw e (from_str-as_str p))

-- A text that no proof type is named by is refused with itself in the error, and no other is.
pub from_str-eq-err_iff :
    (s : Text) (e : ProofTypeParseError)
    → (from_str s ≡ err e) ↔ ((e ≡ proof_type_parse_error s) × ((p : ProofType) → s ≢ as_str p))
from_str-eq-err_iff s e = (refused, unnamed (from_str s) refl)
  where
    refused : from_str s ≡ err e → (e ≡ proof_type_parse_error s) × ((p : ProofType) → s ≢ as_str p)
    refused h = (
      Parsed-err s (from_str s) e (from_str-Parsed s) h,
      λ p n. cc (h, (from_str-eq-ok_iff s p).1 n),
    )

    unnamed :
        (r : Result ProofTypeParseError ProofType)
        → from_str s ≡ r
        → (e ≡ proof_type_parse_error s) × ((p : ProofType) → s ≢ as_str p)
        → from_str s ≡ err e
    unnamed (ok p) h c = absurd (c.1 p ((from_str-eq-ok_iff s p).0 h))
    unnamed (err x) h c = cc (h, Parsed-err s (from_str s) x (from_str-Parsed s) h, c.0)
