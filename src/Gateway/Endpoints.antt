-- ===== src/Gateway/Endpoints.antt =====
-- gateway/gateway.py: the endpoints, with their permission tests.
use qmtl.Base.{ℕ, String, Bool, Option, none, some, ◌==◌, if◌then◌else◌, Dict}
use qmtl.Gateway.Http.{
  Request, Handler, Outcome, returned, raised, other, Body, empty, listing, binary, user_roles,
}
use qmtl.Gateway.Policy.{
  ResourceType, strategy, node, callback, event, read, Policy, evaluate_access,
}

abbrev pub reply : ℕ → Body → Outcome
reply code content = returned (record { status_code = code; content = content; headers = none })

abbrev pub may_read : Dict Policy → ResourceType → Option String → Request → Bool
may_read policies type id request = evaluate_access policies (record {
  user_roles = user_roles request.user;
  resource_type = type;
  action = read;
  resource_id = id;
})

-- `request.state.user` raises where no middleware has set it.
abbrev with_user : Request → Outcome → Outcome
with_user request rest = elim request.user [
  | none ↦ raised (other "'State' object has no attribute 'user'")
  | some user ↦ rest
]

abbrev list_endpoint : ResourceType → String → Dict Policy → Handler
list_endpoint type key policies request =
    with_user request
      (if may_read policies type none request then reply 200 (listing key) else reply 403 empty)

unfoldable pub list_strategies : Dict Policy → Handler
list_strategies = list_endpoint strategy "strategies"

unfoldable pub list_callbacks : Dict Policy → Handler
list_callbacks = list_endpoint callback "callbacks"

unfoldable pub list_nodes : Dict Policy → Handler
list_nodes = list_endpoint node "nodes"

unfoldable pub list_events : Dict Policy → Handler
list_events = list_endpoint event "events"

unfoldable pub strategy_status : Dict Policy → String → Handler
strategy_status policies strategy_id request = with_user request (
    if may_read policies strategy (some strategy_id) request
    then (if strategy_id == "test-strategy-1"
        then reply 200 (binary "\n\u{f}test-strategy-1\u{12}\u{2}ok")
        else reply 404 empty)
    else reply 403 empty)

unfoldable pub submit_strategy : Handler
submit_strategy request = reply 405 empty

unfoldable pub method_not_allowed : Handler
method_not_allowed request = reply 405 empty
