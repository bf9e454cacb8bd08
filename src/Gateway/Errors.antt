-- ===== src/Gateway/Errors.antt =====
-- gateway/middlewares/error.py: an exception becomes a response and one log entry. The text of the
-- log's message is left out.
pub mod Handled
use qmtl.Base.{
  ℕ, String, List, Option, none, some, Dict, if◌then◌else◌, leb, all, true, false, ◌≡◌, refl, arith,
}
use qmtl.Gateway.Http.{
  Request, Handler, Outcome, returned, raised, Exception, http, request_validation, data_validation,
  other, HttpException, ErrorDetail, Body, detail, detail_with_errors,
}

pub data LogLevel : Type 0 where
  warning error : LogLevel

-- The level of a call of the logger, and the fields of its `extra` that come from the request.
pub record LogEntry : Type 0 where
  pub level : LogLevel
  pub path : String
  pub method : String
  pub request_id : Option String

abbrev entry : LogLevel → Request → LogEntry
entry level request = record {
  level = level;
  path = request.path;
  method = request.method;
  request_id = request.request_id;
}

abbrev json : ℕ → Body → Option (Dict String) → Outcome
json code content headers =
    returned (record { status_code = code; content = content; headers = headers })

-- `JSONResponse` writes its content as JSON when it is made, and raises a `TypeError` for what cannot be written.
abbrev json_errors : String → List ErrorDetail → Outcome
json_errors text errors =
    if all (λ e. e.is_serializable) errors
    then json 422 (detail_with_errors text errors) none
    else raised (other "Object is not JSON serializable")

abbrev handle_http_exception : Request → HttpException → Outcome × LogEntry
handle_http_exception request exc = (
  json exc.status_code (detail exc.detail) exc.headers,
  entry (if leb 500 exc.status_code then error else warning) request,
)

abbrev handle_validation_error : Request → List ErrorDetail → Outcome × LogEntry
handle_validation_error request errors =
    (json_errors "Request validation error" errors, entry warning request)

abbrev handle_pydantic_error : Request → List ErrorDetail → Outcome × LogEntry
handle_pydantic_error request errors =
    (json_errors "Data validation error" errors, entry warning request)

abbrev handle_server_error : Request → String → Outcome × LogEntry
handle_server_error request text =
    (json 500 (detail "Internal server error") none, entry error request)

abbrev pub handle_exception : Request → Exception → Outcome × LogEntry
handle_exception request (http exc) = handle_http_exception request exc
handle_exception request (request_validation errors) = handle_validation_error request errors
handle_exception request (data_validation errors) = handle_pydantic_error request errors
handle_exception request (other text) = handle_server_error request text

abbrev pub logged : Outcome × LogEntry → Outcome × Option LogEntry
logged (outcome, log) = (outcome, some log)

-- The `try` block with its handlers: a response or what a handler raises, and what was logged.
unfoldable pub handle_errors : Handler → Request → Outcome × Option LogEntry
handle_errors call_next request = elim (call_next request) [
  | returned response ↦ (returned response, none)
  | raised exc ↦ logged (handle_exception request exc)
]
