-- ===== src/GuestLoader.antt =====
-- crates/guest-loader/src/lib.rs and main.rs: a guest program is loaded and its signature verified.
-- The network, the file system and minisign are the record `Minisign`'s and the arguments.
pub mod Load
use zkboost.Prelude.{
  Option, none, some, is_empty, ℕ, List, [], ◌∷◌, ◌++◌, Text, text, Result, ok, err, ◌>>=◌, ◌>>◌,
  Bool, true, ◌||◌, if◌then◌else◌, is_some,
}
use zkboost.Payload.{Bytes}
use zkboost.Transport.{Response, refuse_status}
use zkboost.ProofType.Query.{trim}
use zkboost.Server.{strip_prefix}

-- The errors of the crate are not looked at.
pub record Minisign : Type 1 where
  pub PublicKey : Type 0
  pub SignatureBox : Type 0
  pub key_from_base64 : Text → Result Text PublicKey
  pub signature_from_string : Text → Result Text SignatureBox
  pub verify : PublicKey → SignatureBox → Bytes → Result Text (Unit {0})

-- `map_err` to a fixed message.
abbrev pub or_message {ℓ} : {A : Type ℓ} → Text → Result Text A → Result Text A
or_message msg (ok a) = ok a
or_message msg (err e) = err msg

-- The two functions of `HttpClient` for reqwest's client, where `get` sends a request for a URL.
unfoldable pub get_bytes : (Text → Result Text Response) → Text → Result Text Bytes
get_bytes get url = do
  response ← or_message (text "Failed to fetch artifact") (get url)
  accepted ← or_message (text "HTTP error response") (refuse_status response)
  or_message (text "Failed to read response bytes") accepted.body

-- A text is the bytes of its body here.
unfoldable pub get_string : (Text → Result Text Response) → Text → Result Text Text
get_string get url = do
  response ← or_message (text "Failed to fetch artifact") (get url)
  accepted ← or_message (text "HTTP error response") (refuse_status response)
  or_message (text "Failed to read response text") accepted.body

-- `fetch_bytes_with_url` and `fetch_string_with_url`, with a client's function.
abbrev pub fetch_bytes_with_url : (Text → Result Text Bytes) → Text → Result Text Bytes
fetch_bytes_with_url client_get_bytes url = client_get_bytes url

abbrev pub fetch_string_with_url : (Text → Result Text Text) → Text → Result Text Text
fetch_string_with_url client_get_string url = client_get_string url

-- `fetch_bytes_with_path` and `fetch_string_with_path`, with what the file system returns.
abbrev pub fetch_bytes_with_path : (Text → Result Text Bytes) → Text → Result Text Bytes
fetch_bytes_with_path read path = or_message (text "Failed to read artifact") (read path)

abbrev pub fetch_string_with_path : (Text → Result Text Text) → Text → Result Text Text
fetch_string_with_path read_to_string path =
    or_message (text "Failed to read artifact") (read_to_string path)

-- What `main` reads from the network and the file system.
pub record Sources : Type 0 where
  -- reqwest's client: `get` and `send`, and the text of a body
  pub send : Text → Result Text Response
  pub decode : Bytes → Text
  pub read : Text → Result Text Bytes
  pub read_to_string : Text → Result Text Text
  pub exists : Text → Bool

-- Where `main` writes.
pub record Files : Type 0 where
  -- `Path::parent`
  pub parent : Text → Option Text
  pub create_dir_all : Text → Result Text (Unit {0})
  pub write : Text → Bytes → Result Text (Unit {0})

abbrev pub is_url : Text → Bool
is_url source =
    is_some (strip_prefix (text "http://") source)
    || is_some (strip_prefix (text "https://") source)

unfoldable pub fetch_artifact_bytes : Sources → Text → Result Text Bytes
fetch_artifact_bytes sources source =
    if is_url source
    then (do sent ← sources.send source; response ← refuse_status sent; response.body)
    else sources.read source

unfoldable pub fetch_artifact_string : Sources → Text → Result Text Text
fetch_artifact_string sources source =
    if is_url source
    then (do
      sent ← sources.send source
      response ← refuse_status sent
      bytes ← response.body
      ok (sources.decode bytes))
    else sources.read_to_string source

unfoldable pub resolve_public_key : Sources → Text → Result Text Text
unfolding fetch_artifact_string
resolve_public_key sources source =
    if is_url source
    then fetch_artifact_string sources source
    else if sources.exists source
    then fetch_artifact_string sources source
    else ok source

-- The directory of the output is made, if its path has one.
unfoldable pub make_parent : Files → Text → Result Text (Unit {0})
make_parent files output = elim (files.parent output) [
  | none ↦ ok tt
  | some parent ↦ if is_empty parent then ok tt else files.create_dir_all parent
]

module _ (minisign : Minisign) where
  unfoldable pub verify_program_and_signature : Bytes → Text → Text → Result Text (Unit {0})
  verify_program_and_signature program_bytes signature publisher_public_key = do
    public_key ←
        or_message (text "Invalid base64 public key")
          (minisign.key_from_base64 publisher_public_key)
    signature_box ←
        or_message (text "Failed to decode signature") (minisign.signature_from_string signature)
    or_message (text "Signature verification failed")
        (minisign.verify public_key signature_box program_bytes)

  -- `load_and_verify_with_url`, with the client's two ways to fetch.
  unfoldable pub load_and_verify_with_url :
      (Text → Result Text Bytes)
      → (Text → Result Text Text)
      → Text
      → Text
      → Text
      → Result Text Bytes
  unfolding verify_program_and_signature
  load_and_verify_with_url client_get_bytes client_get_string program_url signature_url
        publisher_public_key =
      do
        program_bytes ← fetch_bytes_with_url client_get_bytes program_url
        signature_str ← fetch_string_with_url client_get_string signature_url
        verify_program_and_signature program_bytes signature_str publisher_public_key
        ok program_bytes

  -- `main` up to the success of the verification: the program that it goes on with.
  unfoldable pub load : Sources → Text → Text → Text → Result Text Bytes
  unfolding fetch_artifact_bytes fetch_artifact_string resolve_public_key
      verify_program_and_signature
  load sources program signature public_key = do
    program_bytes ← fetch_artifact_bytes sources program
    signature_str ← fetch_artifact_string sources signature
    public_key_str ← resolve_public_key sources public_key
    verify_program_and_signature program_bytes (trim signature_str) (trim public_key_str)
    ok program_bytes

  -- `main`: what it returns, and the call of `fs::write` that it makes.
  unfoldable pub main :
      Sources → Files → Text → Text → Text → Text → Result Text (Unit {0}) × Option (Text × Bytes)
  unfolding load make_parent
  main sources files program signature public_key output =
      elim (load sources program signature public_key) [
        | err e ↦ (err e, none)
        | ok program_bytes ↦ elim (make_parent files output) [
          | err e ↦ (err e, none)
          | ok u ↦ (files.write output program_bytes, some (output, program_bytes))
        ]
      ]
