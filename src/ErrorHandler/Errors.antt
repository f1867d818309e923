-- ===== src/ErrorHandler/Errors.antt =====
-- error.rs: `AppError`, its builder methods, the common errors and the conversions.
use miwidothttp.Prelude.{ℕ, Option, none, some, List, [], String, append_text, string_eq}
use miwidothttp.Prelude.Assoc.{insert}

pub record AppError : Type 0 where
  pub id : String
  pub status : ℕ
  pub code : Option String
  pub message : String
  pub details : Option String
  pub source : Option String
  pub context : List (String × String)
  pub timestamp : ℕ

pub record Stamp : Type 0 where
  pub id : String
  pub timestamp : ℕ

unfoldable pub new_error : Stamp → ℕ → String → AppError
new_error stamp status message = record {
  id = stamp.id;
  status = status;
  code = none;
  message = message;
  details = none;
  source = none;
  context = [];
  timestamp = stamp.timestamp;
}

abbrev pub with_code : String → AppError → AppError
with_code code error = record error { code = some code }

abbrev pub with_details : String → AppError → AppError
with_details details error = record error { details = some details }

abbrev pub with_source : String → AppError → AppError
with_source source error = record error { source = some source }

unfoldable pub with_context : String → String → AppError → AppError
with_context key value error = record error { context = insert key value error.context }

unfoldable pub resource_not_found : Stamp → String → AppError
unfolding new_error
resource_not_found stamp resource =
    with_code "RESOURCE_NOT_FOUND"
      (new_error stamp 404 (append_text "Resource not found: " resource))

unfoldable pub bad_request : Stamp → String → AppError
unfolding new_error
bad_request stamp message = with_code "BAD_REQUEST" (new_error stamp 400 message)

unfoldable pub unauthorized : Stamp → AppError
unfolding new_error
unauthorized stamp = with_code "UNAUTHORIZED" (new_error stamp 401 "Authentication required")

unfoldable pub forbidden : Stamp → AppError
unfolding new_error
forbidden stamp = with_code "FORBIDDEN" (new_error stamp 403 "Access denied")

unfoldable pub internal_server_error : Stamp → AppError
unfolding new_error
internal_server_error stamp =
    with_code "INTERNAL_ERROR" (new_error stamp 500 "Internal server error")

unfoldable pub service_unavailable : Stamp → AppError
unfolding new_error
service_unavailable stamp =
    with_code "SERVICE_UNAVAILABLE" (new_error stamp 503 "Service temporarily unavailable")

unfoldable pub rate_limit_exceeded : Stamp → AppError
unfolding new_error
rate_limit_exceeded stamp =
    with_code "RATE_LIMIT_EXCEEDED" (new_error stamp 429 "Rate limit exceeded")

-- The conversions, from the text of the error that is converted.
unfoldable pub from_io : Stamp → String → AppError
unfolding internal_server_error
from_io stamp text = with_source text (with_details text (internal_server_error stamp))

unfoldable pub from_json : Stamp → String → AppError
unfolding bad_request
from_json stamp text = with_source text (with_details text (bad_request stamp "Invalid JSON"))

unfoldable pub from_anyhow : Stamp → String → AppError
unfolding internal_server_error
from_anyhow stamp text = with_details text (internal_server_error stamp)

-- The object that an error answers with by itself.
pub record ErrorObject : Type 0 where
  pub id : String
  pub code : Option String
  pub message : String
  pub details : Option String

unfoldable pub into_response : AppError → ℕ × ErrorObject
into_response error = (
  error.status,
  record { id = error.id; code = error.code; message = error.message; details = error.details },
)
