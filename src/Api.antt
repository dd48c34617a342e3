-- ===== src/Api.antt =====
-- crates/types/src/lib.rs: the queries and the responses of the API, and what carries them between
-- crates/client/src/lib.rs and crates/server/src/http.rs: URLs, routing, query strings and JSON are
-- the work of other crates, parameters here.
pub mod Router
pub mod Serve
pub mod Requests
pub mod Routes
pub mod Queries
pub mod Answers
pub mod EndToEnd
pub mod Total
use zkboost.Prelude.{
  ℕ, ◌+◌, ◌≤◌, ◌<◌, ◌≡◌, List, [], ◌∷◌, ◌++◌, Text, text, text_eq, Bool, true, false, not, ◌&&◌,
  ◌||◌, leb, ◌==◌, all, is_empty, All, Result, ok, err, Option, none, some, if◌then◌else◌, ite,
}
use zkboost.ProofType.{ProofType}
use zkboost.Payload.{Hash256, Bytes}
use zkboost.External.{External}
use zkboost.Zkvm.{Backends}
use zkboost.Http.{ErrorResponse, ProofStatus, ProofTypeInfo}

pub record ProofRequestQuery : Type 0 where
  pub proof_types : List ProofType

pub record ProofRequestResponse : Type 0 where
  pub new_payload_request_root : Hash256

pub record ProofEventQuery : Type 0 where
  pub new_payload_request_root : Option Hash256

pub record ProofVerificationQuery : Type 0 where
  pub new_payload_request_root : Hash256
  pub proof_type : ProofType

pub record ProofVerificationResponse : Type 0 where
  pub status : ProofStatus

pub record ProofTypesResponse {x : External} (b : Backends x) : Type 0 where
  pub proof_types : List (ProofTypeInfo b)

-- `other` is any method that no route has.
pub data Method : Type 0 where
  get post head other : Method

-- A URL's path, and the pairs of its query.
pub record Url : Type 0 where
  pub path : Text
  pub query : List (Text × Text)

pub record Request : Type 0 where
  pub method : Method
  pub url : Url
  pub content_type : Option Text
  pub body : Bytes

-- A segment of a route: a text, or a name that stands for any segment.
pub data Segment : Type 0 where
  literal capture : Text → Segment

-- The values of the names in a route, for the segments of a path that fits it.
abbrev pub captures : List Segment → List Text → Option (List Text)
captures [] [] = some []
captures [] (s ∷ segments) = none
captures (t ∷ template) [] = none
captures (literal t ∷ template) (s ∷ segments) =
    let rest = captures template segments in if text_eq t s then rest else none
captures (capture name ∷ template) (s ∷ segments) = elim (captures template segments) [
  | some values ↦ some (s ∷ values)
  | none ↦ none
]

abbrev pub join_path : List Text → Text
join_path [] = []
join_path (s ∷ segments) = 47 ∷ (s ++ join_path segments)

-- A letter, a digit, `-` or `_`, which a URL holds as it is.
abbrev pub is_unreserved : ℕ → Bool
is_unreserved c =
    (leb 48 c && leb c 57)
    || (leb 65 c && leb c 90)
    || (leb 97 c && leb c 122)
    || (c == 45)
    || (c == 95)

-- A text that can stand between two slashes.
abbrev pub is_segment : Text → Bool
is_segment s = not (is_empty s) && all is_unreserved s

-- The value of a field among the pairs of a query.
abbrev pub pair_value : Text → List (Text × Text) → Option Text
pair_value k [] = none
pair_value k ((j, v) ∷ pairs) =
    let rest = pair_value k pairs in if text_eq j k then some v else rest

-- How often a field stands in a query.
abbrev pub pair_count : Text → List (Text × Text) → ℕ
pair_count k [] = 0
pair_count k ((j, v) ∷ pairs) = (if text_eq j k then 1 else 0) + pair_count k pairs

-- Axum, serde and url: what the source uses of them, and what it relies on.
pub record Wire {x : External} (b : Backends x) : Type 0 where
  -- whether a path fits the template of a route, with the values of the template's names
  pub matches : List Segment → Text → Option (List Text)
  -- a field of a query string, or the error that it stands there more than once
  pub field : Text → List (Text × Text) → Result Text (Option Text)
  pub missing_field : Text → Text
  pub parse_hash : Text → Result Text Hash256
  -- the statuses of `QueryRejection` and `PathRejection`
  pub query_status : ℕ
  pub path_status : ℕ
  -- `serde_json`, writing and reading
  pub write_error : ErrorResponse → Bytes
  pub write_root : ProofRequestResponse → Bytes
  pub read_root : Bytes → Result Text ProofRequestResponse
  pub write_status : ProofVerificationResponse → Bytes
  pub read_status : Bytes → Result Text ProofVerificationResponse
  pub write_types : ProofTypesResponse b → Bytes
  -- the text under "message" in a JSON body
  pub json_message : Bytes → Option Text

-- What `join` gives for a base URL and an absolute path.
abbrev pub JoinsPaths : (Text → Result Text Url) → Type 0
JoinsPaths join =
    (segments : List Text)
    → All (λ s. is_segment s ≡ true) segments
    → join (join_path segments) ≡ ok (record { path = join_path segments; query = [] })

-- What the documentation of these crates says of them.
pub record Lawful {x : External} {b : Backends x} (wire : Wire b) : Type 0 where
  pub matches-join_path :
      (template : List Segment) (segments : List Text)
      → All (λ s. is_segment s ≡ true) segments
      → wire.matches template (join_path segments) ≡ captures template segments
  pub field_value :
      (k : Text) (pairs : List (Text × Text))
      → pair_count k pairs ≤ 1
      → wire.field k pairs ≡ ok (pair_value k pairs)
  pub field_twice :
      (k : Text) (pairs : List (Text × Text))
      → 1 < pair_count k pairs
      → (e : Text) × (wire.field k pairs ≡ err e)
  pub parse-show_hash : (h : Hash256) → wire.parse_hash (x.show_hash h) ≡ ok h
  pub show_hash_segment : (h : Hash256) → is_segment (x.show_hash h) ≡ true
  pub root_law : (r : ProofRequestResponse) → wire.read_root (wire.write_root r) ≡ ok r
  pub status_law : (r : ProofVerificationResponse) → wire.read_status (wire.write_status r) ≡ ok r
  pub message_law : (e : ErrorResponse) → wire.json_message (wire.write_error e) ≡ some e.message
