-- ===== src/Gateway/Acl/Permits.antt =====
-- Which requests the access control middleware passes on.
use text.Mathlib.Text.{starts_with}
use qmtl.Base.{
  Bool, true, false, not, ◌&&◌, ◌||◌, Option, none, some, ◌≡◌, ◌==◌, nat_eq, any, contains, arith,
  ◌⊎◌,
}
use qmtl.Gateway.Http.{Request, Handler, Outcome, raised, http, is_anonymous, user_roles}
use qmtl.Gateway.Acl.{AclRule, AclConfig, Matcher, find_matching_rule, apply_rule, control_access}

abbrev rule_permits : Option AclRule → AclConfig → Request → Bool
rule_permits none config request = not config.default_deny
rule_permits (some rule) config request =
    contains request.method rule.allowed_methods
    && any (λ role. contains role rule.allowed_roles) (user_roles request.user)

-- The path is exempt; or the request is no write to the gateway, has a user, and the first rule
-- whose pattern matches names its method and one of the user's roles.
abbrev pub permits : Matcher → AclConfig → Request → Bool
permits re config request =
    contains request.path config.exclude_paths
    || (not (starts_with request.path "/v1/gateway" && not (request.method == "GET"))
        && not (is_anonymous request.user)
        && rule_permits (find_matching_rule re config.rules request.path) config request)

-- An HTTP exception with status 401, 403 or 405.
abbrev pub is_refusal : Outcome → Bool
is_refusal (raised (http e)) =
    nat_eq e.status_code 401 || nat_eq e.status_code 403 || nat_eq e.status_code 405
is_refusal _ = false

abbrev Decided : Bool → Outcome → Outcome → Type 0
Decided permitted passed out =
    (permitted ≡ true) × (out ≡ passed) ⊎ (permitted ≡ false) × (is_refusal out ≡ true)

apply_rule_cases :
    (rule : Option AclRule) (config : AclConfig) (next : Handler) (request : Request)
    → Decided
        (rule_permits rule config request)
        (next request)
        (apply_rule rule config next request)
apply_rule_cases none config next request = ground arith
apply_rule_cases (some rule) config next request = ground arith

-- A request reaches the next handler exactly when `permits` holds of it, and otherwise the
-- middleware raises an HTTP exception with status 401, 403 or 405.
pub control_access_cases :
    (re : Matcher) (config : AclConfig) (next : Handler) (request : Request)
    → (permits re config request ≡ true) × (control_access re config next request ≡ next request)
      ⊎ (permits re config request ≡ false)
        × (is_refusal (control_access re config next request) ≡ true)
unfolding control_access
control_access_cases re config next request =
    ground (
      arith,
      apply_rule_cases (find_matching_rule re config.rules request.path) config next request,
    )
