-- ===== src/Gateway/Acl.antt =====
-- gateway/middlewares/acl.py: the access control middleware.
pub mod Permits
use Prim.Native.String.{◌++◌}
use text.Mathlib.Text.{starts_with}
use qmtl.Base.{
  String, List, [], ◌∷◌, Bool, true, false, not, ◌&&◌, Option, none, some, ◌==◌, if◌then◌else◌, any,
  contains,
}
use qmtl.Gateway.Http.{Claims, Request, Handler, Outcome, http_error, is_anonymous, user_roles}

pub record AclRule : Type 0 where
  pub path_pattern : String
  pub allowed_roles : List String
  pub allowed_methods : List String

pub record AclConfig : Type 0 where
  pub rules : List AclRule
  pub default_deny : Bool
  pub exclude_paths : List String

-- `re.compile(pattern).match(path)` succeeds.
abbrev pub Matcher : Type 0
Matcher = (pattern path : String) → Bool

unfoldable pub find_matching_rule : Matcher → List AclRule → String → Option AclRule
find_matching_rule re [] path = none
find_matching_rule re (rule ∷ rules) path =
    if re rule.path_pattern path then some rule else find_matching_rule re rules path

-- The checks that follow the user's: `none` stands for no matching rule.
abbrev pub apply_rule : Option AclRule → AclConfig → Handler → Handler
apply_rule none config call_next request =
    if config.default_deny
    then http_error 403 "Access denied by default policy" none
    else call_next request
apply_rule (some rule) config call_next request =
    if contains request.method rule.allowed_methods
    then (if any (λ role. contains role rule.allowed_roles) (user_roles request.user)
        then call_next request
        else http_error 403 "Insufficient permissions" none)
    else http_error 405 ("Method " ++ request.method ++ " not allowed") none

unfoldable pub control_access : Matcher → AclConfig → Handler → Handler
control_access re config call_next request =
    if contains request.path config.exclude_paths
    then call_next request
    else (let matched_rule = find_matching_rule re config.rules request.path in
        if starts_with request.path "/v1/gateway" && not (request.method == "GET")
        then http_error 405 "Only GET requests are allowed for this endpoint" none
        else if is_anonymous request.user
        then http_error 401 "Authentication required" none
        else apply_rule matched_rule config call_next request)

abbrev get_only : String → List String → AclRule
get_only pattern roles = record {
  path_pattern = pattern;
  allowed_roles = roles;
  allowed_methods = "GET" ∷ [];
}

abbrev pub default_acl_rules : List AclRule
default_acl_rules =
    get_only "^/v1/gateway/strategies$" ("user" ∷ "admin" ∷ [])
    ∷ get_only "^/v1/gateway/strategies/[^/]+/status$" ("user" ∷ "admin" ∷ "service" ∷ [])
    ∷ get_only "^/v1/gateway/callbacks$" ("admin" ∷ "service" ∷ [])
    ∷ get_only "^/v1/gateway/nodes$" ("user" ∷ "admin" ∷ [])
    ∷ get_only "^/v1/gateway/events$" ("user" ∷ "admin" ∷ "service" ∷ [])
    ∷ []
