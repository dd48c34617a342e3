-- ===== src/ProofType/Query/RoundTrip.antt =====
-- The `comma_separated` module of crates/types/src/lib.rs: what is written is read back, and what
-- is read is a list of names.
use zkboost.Prelude.{
  ℕ, ◌≡◌, refl, ap, ◌∙◌, ◌↔◌, ◌≢◌, arith, true, not, List, [], ◌∷◌, ◌++◌, map, Text, text, Result,
  ok, >>=-eq-ok, ◌==◌, all,
}
use zkboost.ProofType.{ProofType, ProofTypeParseError, ethrex_risc0, as_str, from_str, join}
use zkboost.ProofType.Names.{from_str-as_str, from_str-eq-ok_iff}
use zkboost.ProofType.Query.{split, trim, parse_parts, serialize, deserialize}

ok-injective :
    {ps qs : List ProofType}
    → ◌≡◌ {A = Result ProofTypeParseError (List ProofType)} (ok ps) (ok qs)
    → ps ≡ qs
ok-injective h = cc

abbrev comma : ℕ
comma = b','

-- No name holds a comma or begins or ends with white space.
no_comma : (p : ProofType) → all (λ c. not (c == comma)) (as_str p) ≡ true
unfolding as_str
no_comma ethrex_risc0 = refl
no_comma _ = refl

trim-as_str : (p : ProofType) → trim (as_str p) ≡ as_str p
unfolding as_str trim
trim-as_str ethrex_risc0 = refl
trim-as_str _ = refl

pub split-part : (b : ℕ) (s : Text) → all (λ c. not (c == b)) s ≡ true → split b s ≡ s ∷ []
unfolding split
split-part b [] h = refl
split-part b (c ∷ s) h = ground (arith, split-part b s)

pub split-append :
    (b : ℕ) (s rest : Text)
    → all (λ c. not (c == b)) s ≡ true
    → split b (s ++ (b ∷ rest)) ≡ s ∷ split b rest
unfolding split
split-append b [] rest h = ground arith
split-append b (c ∷ s) rest h = ground (arith, split-append b s rest)

split-join :
    (p : ProofType) (ps : List ProofType)
    → split comma (join (text ",") (map as_str (p ∷ ps))) ≡ map as_str (p ∷ ps)
unfolding join
split-join p [] = split-part comma (as_str p) (no_comma p)
split-join p (q ∷ ps) =
    split-append comma (as_str p) _ (no_comma p) ∙ ap (◌∷◌ (as_str p)) (split-join q ps)

parse_parts-map : (ps : List ProofType) → parse_parts (map as_str ps) ≡ ok ps
unfolding parse_parts
parse_parts-map [] = refl
parse_parts-map (p ∷ ps) = rw (trim-as_str p, from_str-as_str p, parse_parts-map ps)

deserialize_ne_nil : (s : Text) → s ≢ [] → deserialize s ≡ parse_parts (split comma s)
unfolding deserialize
deserialize_ne_nil [] h = absurd (h refl)
deserialize_ne_nil (c ∷ s) h = refl

as_str-ne-nil : (p : ProofType) → as_str p ≢ []
unfolding as_str
as_str-ne-nil ethrex_risc0 h = cc
as_str-ne-nil _ h = cc

append-ne-nil : (s t : Text) → s ≢ [] → s ++ t ≢ []
append-ne-nil [] t h = absurd (h refl)
append-ne-nil (c ∷ s) t h = λ e. cc

serialize-ne-nil : (p : ProofType) (ps : List ProofType) → serialize (p ∷ ps) ≢ []
unfolding serialize join
serialize-ne-nil p [] = as_str-ne-nil p
serialize-ne-nil p (q ∷ ps) = append-ne-nil (as_str p) _ (as_str-ne-nil p)

-- A list of proof types that is written as a query value is read back unchanged.
pub deserialize-serialize : (ps : List ProofType) → deserialize (serialize ps) ≡ ok ps
unfolding deserialize serialize join
deserialize-serialize [] = refl
deserialize-serialize (p ∷ ps) =
    deserialize_ne_nil _ (serialize-ne-nil p ps)
    ∙ (ap parse_parts (split-join p ps) ∙ parse_parts-map (p ∷ ps))

parse_parts-eq-ok :
    (parts : List Text) (ps : List ProofType)
    → parse_parts parts ≡ ok ps
    → map trim parts ≡ map as_str ps
unfolding parse_parts
parse_parts-eq-ok [] [] h = refl
parse_parts-eq-ok [] (q ∷ ps) h = cc
parse_parts-eq-ok (s ∷ parts) ps h =
    let (p, named, h') = >>=-eq-ok (from_str (trim s)) _ h in
    let (qs, parsed, h'') = >>=-eq-ok (parse_parts parts) _ h' in
    cc (
      (from_str-eq-ok_iff (trim s) p).0 named,
      parse_parts-eq-ok parts qs parsed,
      ap (map as_str) (ok-injective h''),
    )

parse_parts_names :
    (parts : List Text) (ps : List ProofType)
    → map trim parts ≡ map as_str ps
    → parse_parts parts ≡ ok ps
unfolding parse_parts
parse_parts_names [] [] h = refl
parse_parts_names [] (q ∷ ps) h = cc
parse_parts_names (s ∷ parts) [] h = cc
parse_parts_names (s ∷ parts) (p ∷ ps) h =
    rw ((from_str-eq-ok_iff (trim s) p).1 (cc), parse_parts_names parts ps (cc))

-- A value that is not empty is read as a list of proof types exactly when its parts between the
-- commas, without the white space round them, are the names of those proof types in order.
pub deserialize-eq-ok_iff :
    (s : Text) (ps : List ProofType)
    → s ≢ []
    → (deserialize s ≡ ok ps) ↔ (map trim (split b',' s) ≡ map as_str ps)
deserialize-eq-ok_iff s ps h =
    rw (deserialize_ne_nil s h)
      (parse_parts-eq-ok (split comma s) ps, parse_parts_names (split comma s) ps)
