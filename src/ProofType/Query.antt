-- ===== src/ProofType/Query.antt =====
-- The module `comma_separated` of crates/types/src/lib.rs: the proof types of a request, as the
-- value of a query parameter.
pub mod RoundTrip
use mathlib.Core.List.{reverse}
use zkboost.Prelude.{
  ℕ, ◌≡◌, refl, Bool, ◌||◌, ◌&&◌, List, [], ◌∷◌, map, Text, text, Result, ok, ◌>>=◌, if◌then◌else◌,
  leb, ◌==◌, is_empty,
}
use zkboost.ProofType.{
  ProofType, ProofTypeParseError, ethrex_zisk, reth_sp1, as_str, from_str, join,
}

-- `str::split` at a character of the standard library: there is always a first part.
abbrev prepend : ℕ → List Text → List Text
prepend c [] = (c ∷ []) ∷ []
prepend c (part ∷ rest) = (c ∷ part) ∷ rest

unfoldable pub split : ℕ → Text → List Text
split separator [] = [] ∷ []
split separator (c ∷ s) =
    let rest = split separator s in if c == separator then [] ∷ rest else prepend c rest

-- `char::is_whitespace`: the property White_Space of Unicode.
unfoldable pub is_whitespace : ℕ → Bool
is_whitespace c =
    leb 9 c && leb c 13
    || c == 32
    || c == 0x85
    || c == 0xa0
    || c == 0x1680
    || leb 0x2000 c && leb c 0x200a
    || c == 0x2028
    || c == 0x2029
    || c == 0x202f
    || c == 0x205f
    || c == 0x3000

unfoldable pub trim_start : Text → Text
unfolding is_whitespace
trim_start [] = []
trim_start (c ∷ s) = if is_whitespace c then trim_start s else c ∷ s

unfoldable pub trim : Text → Text
unfolding trim_start
trim s = reverse (trim_start (reverse (trim_start s)))

-- `collect` into a `Result`: the first error, or all values.
unfoldable pub parse_parts : List Text → Result ProofTypeParseError (List ProofType)
parse_parts [] = ok []
parse_parts (part ∷ rest) = do
  proof_type ← from_str (trim part)
  proof_types ← parse_parts rest
  ok (proof_type ∷ proof_types)

unfoldable pub serialize : List ProofType → Text
serialize proof_types = join (text ",") (map as_str proof_types)

unfoldable pub deserialize : Text → Result ProofTypeParseError (List ProofType)
deserialize value = if is_empty value then ok [] else parse_parts (split b',' value)

spaced : deserialize (text " reth-sp1,ethrex-zisk ") ≡ ok (reth_sp1 ∷ ethrex_zisk ∷ [])
unfolding deserialize split trim parse_parts from_str
spaced = refl
