-- ===== src/ProofType.antt =====
-- crates/types/src/proof_type.rs: the execution layer proof types, their names and their kinds.
pub mod Names
pub mod Query
use zkboost.Prelude.{
  ℕ, ◌≡◌, refl, ◌++◌, List, [], ◌∷◌, map, Text, text, text_eq, Result, ok, err, if◌then◌else◌,
}

pub data ProofType : Type 0 where
  ethrex_risc0 ethrex_sp1 ethrex_zisk reth_openvm reth_risc0 reth_sp1 reth_zisk : ProofType

pub data ElKind : Type 0 where
  reth ethrex : ElKind

-- The kinds of `ere_catalog::zkVMKind` that the source names.
pub data ZkvmKind : Type 0 where
  risc0 sp1 openvm zisk : ZkvmKind

unfoldable pub el_kind : ProofType → ElKind
el_kind ethrex_risc0 = ethrex
el_kind ethrex_sp1 = ethrex
el_kind ethrex_zisk = ethrex
el_kind reth_openvm = reth
el_kind reth_risc0 = reth
el_kind reth_sp1 = reth
el_kind reth_zisk = reth

pub zkvm_kind : ProofType → ZkvmKind
zkvm_kind ethrex_risc0 = risc0
zkvm_kind reth_risc0 = risc0
zkvm_kind ethrex_sp1 = sp1
zkvm_kind reth_sp1 = sp1
zkvm_kind reth_openvm = openvm
zkvm_kind ethrex_zisk = zisk
zkvm_kind reth_zisk = zisk

unfoldable pub as_str : ProofType → Text
as_str ethrex_risc0 = text "ethrex-risc0"
as_str ethrex_sp1 = text "ethrex-sp1"
as_str ethrex_zisk = text "ethrex-zisk"
as_str reth_openvm = text "reth-openvm"
as_str reth_risc0 = text "reth-risc0"
as_str reth_sp1 = text "reth-sp1"
as_str reth_zisk = text "reth-zisk"

-- `ProofTypeParseError`, with the text that was refused.
pub data ProofTypeParseError : Type 0 where
  proof_type_parse_error : Text → ProofTypeParseError

-- The arms of the `match` on the text, in order.
unfoldable pub from_str : Text → Result ProofTypeParseError ProofType
from_str s =
    if text_eq s (text "ethrex-risc0")
    then ok ethrex_risc0
    else if text_eq s (text "ethrex-sp1")
    then ok ethrex_sp1
    else if text_eq s (text "ethrex-zisk")
    then ok ethrex_zisk
    else if text_eq s (text "reth-openvm")
    then ok reth_openvm
    else if text_eq s (text "reth-risc0")
    then ok reth_risc0
    else if text_eq s (text "reth-sp1")
    then ok reth_sp1
    else if text_eq s (text "reth-zisk")
    then ok reth_zisk
    else err (proof_type_parse_error s)

-- The derived `EnumIter`: every variant, in the order of declaration.
abbrev pub variants : List ProofType
variants =
    ethrex_risc0 ∷ ethrex_sp1 ∷ ethrex_zisk ∷ reth_openvm ∷ reth_risc0 ∷ reth_sp1 ∷ reth_zisk ∷ []

-- The derived `Ord`: the place in the declaration.
abbrev pub discriminant : ProofType → ℕ
discriminant ethrex_risc0 = 0
discriminant ethrex_sp1 = 1
discriminant ethrex_zisk = 2
discriminant reth_openvm = 3
discriminant reth_risc0 = 4
discriminant reth_sp1 = 5
discriminant reth_zisk = 6

unfoldable pub proof_type_dec : Discrete ProofType
proof_type_dec = hlevel

-- `[T]::join` of the standard library.
unfoldable pub join : Text → List Text → Text
join separator [] = []
join separator (s ∷ []) = s
join separator (s ∷ t ∷ rest) = s ++ (separator ++ join separator (t ∷ rest))

-- The `Display` of the parse error.
pub show_parse_error : ProofTypeParseError → Text
unfolding as_str join
show_parse_error (proof_type_parse_error unsupported) =
    text "Unsupported proof type `"
    ++ (unsupported
        ++ (text "`, expect one of [" ++ (join (text ", ") (map as_str variants) ++ text "]")))

as_str_sample : from_str (as_str reth_zisk) ≡ ok reth_zisk
unfolding from_str as_str
as_str_sample = refl
