-- ===== src/Gateway/Consistency.antt =====
-- The access rules of the middleware against the permission tests of the endpoints behind them.
use qmtl.Base.{
  arith, String, List, [], ◌∷◌, true, false, ◌||◌, Option, none, some, ◌≡◌, refl, any, contains,
  eq_iff, nat_eq, Bool, false, ◌==◌, if◌then◌else◌,
}
use qmtl.Gateway.Policy.{ResourceType, strategy, node, callback, event, read, evaluate_access}
use qmtl.Gateway.Policy.Defaults.{
  default_policies, access, user_may, admin_may, service_may, evaluate_access-default_policies,
}
use qmtl.Gateway.Http.{Claims, Request, Handler, Outcome, returned, raised, user_roles}
use qmtl.Gateway.Endpoints.{
  list_strategies, list_callbacks, list_nodes, list_events, strategy_status,
}
use qmtl.Gateway.Acl.{AclRule, default_acl_rules}

any-contains :
    (a : String) (others roles : List String)
    → any (λ r. contains r (a ∷ others)) roles
      ≡ (contains a roles || any (λ r. contains r others) roles)
any-contains a others [] = refl
any-contains a others (r ∷ roles) =
    ground (arith, any-contains a others roles, eq_iff a r, eq_iff r a)

any-false : (roles : List String) → any (λ r. false) roles ≡ false
any-false [] = refl
any-false (r ∷ roles) = any-false roles

abbrev Reads : ResourceType → Option String → List String → Type 0
Reads type id roles = evaluate_access default_policies (access roles type read id) ≡ true

module _ (roles : List String) (id : Option String) where
  by_user_or_admin :
      (type : ResourceType)
      → user_may type read ≡ true
      → admin_may type read ≡ true
      → any (λ r. contains r ("user" ∷ "admin" ∷ [])) roles ≡ true
      → Reads type id roles
  by_user_or_admin type u a h = ground (
    arith,
    evaluate_access-default_policies roles type read id,
    any-contains "user" ("admin" ∷ []) roles,
    any-contains "admin" [] roles,
    any-false roles,
  )

  by_admin_or_service :
      (type : ResourceType)
      → admin_may type read ≡ true
      → service_may type read ≡ true
      → any (λ r. contains r ("admin" ∷ "service" ∷ [])) roles ≡ true
      → Reads type id roles
  by_admin_or_service type a s h = ground (
    arith,
    evaluate_access-default_policies roles type read id,
    any-contains "admin" ("service" ∷ []) roles,
    any-contains "service" [] roles,
    any-false roles,
  )

  by_any_role :
      (type : ResourceType)
      → user_may type read ≡ true
      → admin_may type read ≡ true
      → service_may type read ≡ true
      → any (λ r. contains r ("user" ∷ "admin" ∷ "service" ∷ [])) roles ≡ true
      → Reads type id roles
  by_any_role type u a s h = ground (
    arith,
    evaluate_access-default_policies roles type read id,
    any-contains "user" ("admin" ∷ "service" ∷ []) roles,
    any-contains "admin" ("service" ∷ []) roles,
    any-contains "service" [] roles,
    any-false roles,
  )

-- The endpoint behind the path of a default access rule; `id` is the path's strategy id.
abbrev pub endpoint : AclRule → String → Handler
endpoint rule id =
    if rule.path_pattern == "^/v1/gateway/strategies$"
    then list_strategies default_policies
    else if rule.path_pattern == "^/v1/gateway/strategies/[^/]+/status$"
    then strategy_status default_policies id
    else if rule.path_pattern == "^/v1/gateway/callbacks$"
    then list_callbacks default_policies
    else if rule.path_pattern == "^/v1/gateway/nodes$"
    then list_nodes default_policies
    else list_events default_policies

abbrev pub is_served : Outcome → Bool
is_served (returned r) = nat_eq r.status_code 200 || nat_eq r.status_code 404
is_served (raised e) = false

-- For each rule, a request whose user has one of the rule's roles is served by its endpoint.
abbrev pub Agrees : List AclRule → String → Request → Claims → Type 0
Agrees [] id request user = Unit
Agrees (rule ∷ rules) id request user =
    (any (λ r. contains r rule.allowed_roles) (user_roles (some user)) ≡ true
      → is_served (endpoint rule id request) ≡ true)
    × Agrees rules id request user

-- Under the default policies, for each default access rule, the endpoint behind it answers with 200
-- or 404 to every user who has one of the rule's roles: what the access control admits is not
-- refused by the endpoint's own permission test.
pub default_acl_rules-Agrees :
    (id : String) (request : Request) (user : Claims)
    → request.user ≡ some user
    → Agrees default_acl_rules id request user
unfolding list_strategies strategy_status list_callbacks list_nodes list_events
default_acl_rules-Agrees id request user given =
    let roles = user_roles (some user) in
    (
      λ h. ground (arith, by_user_or_admin roles none strategy refl refl h),
      (
        λ h. ground (arith, by_any_role roles (some id) strategy refl refl refl h),
        (
          λ h. ground (arith, by_admin_or_service roles none callback refl refl h),
          (
            λ h. ground (arith, by_user_or_admin roles none node refl refl h),
            (λ h. ground (arith, by_any_role roles none event refl refl refl h), tt),
          ),
        ),
      ),
    )
