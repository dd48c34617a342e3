-- ===== src/Transport.antt =====
-- What the source uses of the crate `reqwest`: a response that was received.
use zkboost.Prelude.{ℕ, Text, text, Result, ok, err, Bool, ◌&&◌, leb, ltb, if◌then◌else◌}
use zkboost.Payload.{Bytes}

pub record Response : Type 0 where
  pub status : ℕ
  -- the body, or the error of reading it
  pub body : Result Text Bytes

-- `StatusCode::is_success`.
abbrev pub is_success : ℕ → Bool
is_success status = leb 200 status && ltb status 300

-- `Response::error_for_status`: an error for the statuses of client and server errors.
abbrev pub refuse_status : Response → Result Text Response
refuse_status response =
    if leb 400 response.status && ltb response.status 600
    then err (text "error status")
    else ok response
