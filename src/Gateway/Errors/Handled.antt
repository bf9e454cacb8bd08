-- ===== src/Gateway/Errors/Handled.antt =====
-- What the error middleware owes its client and its log.
use qmtl.Base.{all, String, Option, none, some, leb, Bool, true, false, ◌≡◌, refl, arith}
use qmtl.Gateway.Http.{
  Request, Handler, Outcome, returned, raised, Exception, http, request_validation, data_validation,
  other,
}
use qmtl.Gateway.Errors.{
  LogLevel, warning, error, LogEntry, handle_exception, logged, handle_errors,
}

abbrev pub is_error : LogLevel → Bool
is_error warning = false
is_error error = true

abbrev is_failure : Outcome → Bool
is_failure (returned response) = leb 500 response.status_code
is_failure (raised exc) = false

-- One log entry, of this request, at level error for a server error.
abbrev pub LogsFailure : Request → Outcome × Option LogEntry → Type 0
LogsFailure request (outcome, none) = ⊥
LogsFailure request (outcome, some log) =
    (log.path ≡ request.path)
    × (log.method ≡ request.method)
    × (log.request_id ≡ request.request_id)
    × (is_error log.level ≡ is_failure outcome)

-- Everything that the response to this exception tells can be written as JSON.
abbrev pub is_writable : Exception → Bool
is_writable (request_validation errors) = all (λ e. e.is_serializable) errors
is_writable (data_validation errors) = all (λ e. e.is_serializable) errors
is_writable _ = true

abbrev pub is_response : Outcome → Bool
is_response (returned response) = true
is_response (raised exc) = false

abbrev pub Handled : Request → Outcome → Outcome × Option LogEntry → Type 0
Handled request (returned response) result = result ≡ (returned response, none)
Handled request (raised exc) result =
    LogsFailure request result × (is_response result.0 ≡ is_writable exc)

handle_exception_lem :
    (request : Request) (exc : Exception)
    → Handled request (raised exc) (logged (handle_exception request exc))
handle_exception_lem request (http e) = ground arith
handle_exception_lem request (request_validation e) = ground arith
handle_exception_lem request (data_validation e) = ground arith
handle_exception_lem request (other e) = ground arith

handled :
    (request : Request) (out : Outcome)
    → Handled request out (elim out [
      | returned response ↦ (returned response, none)
      | raised exc ↦ logged (handle_exception request exc)
    ])
handled request (returned r) = refl
handled request (raised e) = handle_exception_lem request e

-- A response of the handler is passed on and nothing is logged. An exception is logged once, under the
-- request's path, method and id, at level error exactly when a response with status 500 or more is given; it
-- becomes a response exactly when all of its validation errors can be written as JSON, and otherwise an
-- exception leaves the middleware.
pub handle_errors_lem :
    (call_next : Handler) (request : Request)
    → Handled request (call_next request) (handle_errors call_next request)
unfolding handle_errors
handle_errors_lem call_next request = handled request (call_next request)

-- Two unexpected exceptions, whatever their texts, give the client the same response, a server error.
pub handle_errors_opaque :
    (first second : Handler) (request : Request) (a b : String)
    → first request ≡ raised (other a)
    → second request ≡ raised (other b)
    → ((handle_errors first request).0 ≡ (handle_errors second request).0)
      × (is_failure (handle_errors first request).0 ≡ true)
unfolding handle_errors
handle_errors_opaque first second request a b h k = ground arith
