-- ===== src/Gateway/Examples.antt =====
-- Requests to the gateway, and the theorems at them.
use qmtl.Base.{List, [], ◌∷◌, ◌++◌, none, some, false, ◌≡◌, refl, ◌==◌, ◌&&◌, not, values}
use qmtl.Gateway.Http.{Claims, Request, Handler, raised, other, data_validation, http_error}
use qmtl.Gateway.Policy.{Access, event, read, evaluate_access}
use qmtl.Gateway.Policy.Defaults.{default_policies, access}
use qmtl.Gateway.Policy.Decision.{evaluate_access-eq-granted_not_denied, some_rule, grants, denies}
use qmtl.Gateway.Acl.{default_acl_rules}
use qmtl.Gateway.Errors.{handle_errors}
use qmtl.Gateway.Errors.Handled.{Handled, handle_errors_lem}
use qmtl.Gateway.Endpoints.{list_nodes}
use qmtl.Gateway.App.{Middleware, Framework, Environment, gateway, gateway_refuses}
use qmtl.Gateway.Consistency.{Agrees, default_acl_rules-Agrees}

abbrev alice : Claims
alice = record { roles = some ("user" ∷ []); exp = some 100; others = [] }

abbrev get_nodes : Request
get_nodes = record {
  path = "/v1/gateway/nodes";
  method = "GET";
  authorization = some "token";
  user = none;
  request_id = none;
}

abbrev as_alice : Request
as_alice = record get_nodes { user = some alice }

-- A framework that nests the middlewares, the last one outermost, and adds none of its own.
abbrev nest : List Middleware → Middleware
nest [] app = app
nest (m ∷ ms) app = nest ms (m app)

nest-snoc :
    (added : List Middleware) (last : Middleware) (app : Handler)
    → nest (added ++ last ∷ []) app ≡ last (nest added app)
nest-snoc [] last app = refl
nest-snoc (m ∷ ms) last app = nest-snoc ms last (m app)

abbrev nesting : Framework
nesting = record {
  stack = nest;
  cors = λ app. app;
  stack-nil = λ app. refl;
  stack-snoc = nest-snoc;
}

-- Patterns match by the nodes path alone, and every token is alice's.
abbrev world : Environment
world = record {
  re = λ pattern path. (pattern == "^/v1/gateway/nodes$") && (path == "/v1/gateway/nodes");
  decode = λ token key algorithm. some alice;
  now = 50;
  request_id = "r1";
  secret_key = "k";
}

abbrev q : Access
q = access ("service" ∷ []) event read none

evaluate_access-eq-granted_not_denied_example : evaluate_access default_policies q ≡ (
    some_rule (grants q) q (values default_policies)
    && not (some_rule (denies q) q (values default_policies)))
evaluate_access-eq-granted_not_denied_example =
    evaluate_access-eq-granted_not_denied default_policies q

gateway_refuses_example :
    gateway nesting world (list_nodes default_policies) get_nodes
    ≡ http_error 401 "Authentication required" none
gateway_refuses_example =
    gateway_refuses nesting world (list_nodes default_policies) get_nodes refl refl

-- A validator of the data has raised an exception, which its entry holds.
abbrev refusing : Handler
refusing request =
    raised (data_validation (record { text = "Value error"; is_serializable = false } ∷ []))

escapes : (handle_errors refusing get_nodes).0 ≡ raised (other "Object is not JSON serializable")
unfolding handle_errors
escapes = refl

handle_errors_lem_example :
    Handled get_nodes (refusing get_nodes) (handle_errors refusing get_nodes)
handle_errors_lem_example = handle_errors_lem refusing get_nodes

default_acl_rules-Agrees_example : Agrees default_acl_rules "s1" as_alice alice
default_acl_rules-Agrees_example = default_acl_rules-Agrees "s1" as_alice alice refl
