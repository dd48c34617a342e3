-- ===== src/Tests/Wires.antt =====
-- A router, queries and JSON that keep the laws of `Lawful`, in the place of the crates'.
use zkboost.Prelude.{
  Option, ltb, lt→ltb, ◌≤◌, false, if◌then◌else◌, ℕ, zero, suc, ◌≡◌, refl, ap, ◌∙◌, arith, List, [],
  ◌∷◌, ◌++◌, Text, text, true, not, ◌==◌, all, length, Result, ok, err, some, All,
}
use zkboost.ProofType.Query.{split}
use zkboost.ProofType.Query.RoundTrip.{split-part, split-append}
use zkboost.Payload.{Hash256, Bytes}
use zkboost.Http.{ProofStatus, valid, invalid}
use zkboost.Api.{
  Wire, Lawful, Url, captures, join_path, pair_value, pair_count, is_segment, is_unreserved,
  ProofRequestResponse, ProofVerificationResponse, JoinsPaths,
}
use zkboost.Api.Routes.{append_nil}
use zkboost.Tests.World.{ones}
use zkboost.Tests.Machines.{machines}

abbrev segments_of : Text → List Text
segments_of [] = []
segments_of (c ∷ s) = split 47 s

abbrev parse_ones : Text → Result Text Hash256
parse_ones (c ∷ d ∷ s) = ok (length s)
parse_ones _ = err (text "invalid hash")

abbrev read_root : Bytes → Result Text ProofRequestResponse
read_root (h ∷ []) = ok (record { new_payload_request_root = h })
read_root _ = err (text "EOF")

abbrev write_status : ProofVerificationResponse → Bytes
write_status r = elim r.status [ valid ↦ 1 ∷ [] | invalid ↦ [] ]

abbrev read_status : Bytes → Result Text ProofVerificationResponse
read_status [] = ok (record { status = invalid })
read_status (c ∷ s) = ok (record { status = valid })

abbrev one_field : Text → List (Text × Text) → Result Text (Option Text)
one_field k pairs =
    if ltb 1 (pair_count k pairs) then err (text "duplicate field") else ok (pair_value k pairs)

abbrev pub wire : Wire machines
wire = record {
  matches = λ template path. captures template (segments_of path);
  field = one_field;
  missing_field = λ name. text "missing field " ++ name;
  parse_hash = parse_ones;
  query_status = 400;
  path_status = 400;
  write_error = λ e. e.message;
  write_root = λ r. r.new_payload_request_root ∷ [];
  read_root = read_root;
  write_status = write_status;
  read_status = read_status;
  write_types = λ r. [];
  json_message = λ body. some body;
}

abbrev pub join : Text → Result Text Url
join path = ok (record { path = path; query = [] })

pub join-JoinsPaths : JoinsPaths join
join-JoinsPaths segments h = refl

no_slash : (s : Text) → all is_unreserved s ≡ true → all (λ c. not (c == 47)) s ≡ true
no_slash [] h = refl
no_slash (c ∷ s) h = ground (arith, no_slash s)

segment-no_slash : (s : Text) → is_segment s ≡ true → all (λ c. not (c == 47)) s ≡ true
segment-no_slash [] h = refl
segment-no_slash (c ∷ s) h = no_slash (c ∷ s) h

split-join_path :
    (s : Text) (segments : List Text)
    → is_segment s ≡ true
    → All (λ t. is_segment t ≡ true) segments
    → split 47 (s ++ join_path segments) ≡ s ∷ segments
split-join_path s [] h g = ap (split 47) (append_nil s) ∙ split-part 47 s (segment-no_slash s h)
split-join_path s (t ∷ segments) h g =
    split-append 47 s _ (segment-no_slash s h) ∙ ap (◌∷◌ s) (split-join_path t segments g.0 g.1)

segments_of-join_path :
    (segments : List Text)
    → All (λ t. is_segment t ≡ true) segments
    → segments_of (join_path segments) ≡ segments
segments_of-join_path [] h = refl
segments_of-join_path (s ∷ segments) h = split-join_path s segments h.0 h.1

length-ones : (h : ℕ) → length (ones h) ≡ h
length-ones zero = refl
length-ones (suc h) = ap suc (length-ones h)

all-ones : (h : ℕ) → all is_unreserved (ones h) ≡ true
all-ones zero = refl
all-ones (suc h) = all-ones h

read-write_status :
    (s : ProofStatus)
    → read_status (write_status (record { status = s })) ≡ ok (record { status = s })
read-write_status valid = refl
read-write_status invalid = refl

not_above : (n : ℕ) → n ≤ 1 → ltb 1 n ≡ false
not_above n h = ground arith

pub lawful : Lawful wire
lawful = record {
  matches-join_path =
      λ template segments h. ap (captures template) (segments_of-join_path segments h);
  field_value = λ k pairs h. rw (one_field, not_above (pair_count k pairs) h) refl;
  field_twice =
      λ k pairs h. (text "duplicate field", rw (one_field, lt→ltb 1 (pair_count k pairs) h) refl);
  parse-show_hash = λ h. ap ok (length-ones h);
  show_hash_segment = λ h. all-ones h;
  root_law = λ r. refl;
  status_law = λ r. read-write_status r.status;
  message_law = λ e. refl;
}
