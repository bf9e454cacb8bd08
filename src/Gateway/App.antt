-- ===== src/Gateway/App.antt =====
-- gateway/gateway.py and gateway/middlewares/logging.py: how the application stacks its
-- middlewares, in the order in which it registers them.
use text.Mathlib.Text.{starts_with}
use qmtl.Base.{
  ℕ, String, List, [], ◌∷◌, ◌++◌, true, false, not, ◌&&◌, none, some, ◌≡◌, ◌==◌, if◌then◌else◌,
  contains, ◌∙◌, ap,
}
use qmtl.Gateway.Http.{Request, Handler, http_error}
use qmtl.Gateway.Auth.{JwtConfig, Decoder, authenticate}
use qmtl.Gateway.Acl.{Matcher, AclConfig, control_access, default_acl_rules}
use qmtl.Gateway.Errors.{handle_errors}

abbrev pub Middleware : Type 0
Middleware = Handler → Handler

-- What the web framework does with the registered middlewares: it documents that the one added
-- last is the outermost. `cors` is its own middleware.
pub record Framework : Type 0 where
  pub stack : List Middleware → Middleware
  pub cors : Middleware
  pub stack-nil : (app : Handler) → stack [] app ≡ app
  pub stack-snoc :
      (added : List Middleware) (last : Middleware) (app : Handler)
      → stack (added ++ last ∷ []) app ≡ last (stack added app)

-- Everything that the gateway takes from outside its sources: the pattern and token libraries,
-- the clock, the request ids, and the secret of the environment.
pub record Environment : Type 0 where
  pub re : Matcher
  pub decode : Decoder
  pub now : ℕ
  pub request_id : String
  pub secret_key : String

abbrev pub exclude_paths : List String
exclude_paths = "/health" ∷ "/" ∷ "/docs" ∷ "/openapi.json" ∷ []

abbrev pub jwt_config : Environment → JwtConfig
jwt_config env = record {
  secret_key = env.secret_key;
  algorithm = "HS256";
  exclude_paths = exclude_paths;
}

abbrev pub acl_config : AclConfig
acl_config = record {
  rules = default_acl_rules;
  default_deny = true;
  exclude_paths = exclude_paths;
}

-- The error middleware, without its log.
abbrev pub error_handling : Middleware
error_handling call_next request = (handle_errors call_next request).0

-- The logging middleware sets the request's id; its log is left out.
abbrev pub log_request : String → Middleware
log_request id call_next request = call_next (record request { request_id = some id })

abbrev before_acl : Framework → Environment → List Middleware
before_acl f env =
    f.cors
    ∷ error_handling
    ∷ log_request env.request_id
    ∷ authenticate env.decode env.now (jwt_config env)
    ∷ []

-- In the order of the `add_middleware` and `middleware` calls.
unfoldable pub registered : Framework → Environment → List Middleware
registered f env = before_acl f env ++ control_access env.re acl_config ∷ []

unfoldable pub gateway : Framework → Environment → Middleware
unfolding registered
gateway f env = f.stack (registered f env)

-- The access control alone refuses a request that has no user.
control_access-anonymous :
    (env : Environment) (next : Handler) (request : Request)
    → request.user ≡ none
    → contains request.path exclude_paths ≡ false
    → control_access env.re acl_config next request ≡ (
        if starts_with request.path "/v1/gateway" && not (request.method == "GET")
        then http_error 405 "Only GET requests are allowed for this endpoint" none
        else http_error 401 "Authentication required" none)
unfolding control_access
control_access-anonymous env next request fresh path = rw (fresh, path)

-- As registered, the access control is the outermost middleware and no user is set when it runs:
-- every request without a user, to a path that is not exempt, is refused, with 405 for a write to
-- the gateway and with 401 otherwise, whatever token it carries and whatever the endpoint is.
pub gateway_refuses :
    (f : Framework) (env : Environment) (app : Handler) (request : Request)
    → request.user ≡ none
    → contains request.path exclude_paths ≡ false
    → gateway f env app request ≡ (
        if starts_with request.path "/v1/gateway" && not (request.method == "GET")
        then http_error 405 "Only GET requests are allowed for this endpoint" none
        else http_error 401 "Authentication required" none)
unfolding gateway
gateway_refuses f env app request fresh path =
    ap (λ h. h request) (f.stack-snoc (before_acl f env) (control_access env.re acl_config) app)
    ∙ control_access-anonymous env (f.stack (before_acl f env) app) request fresh path
