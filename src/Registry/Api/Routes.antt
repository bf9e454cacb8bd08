-- ===== src/Registry/Api/Routes.antt =====
-- dag_manager/registry/api.py and api_callback.py: the routes, in the order in which they are registered. An
-- endpoint is named after the function that answers; the wrappers of the two routers only pass on to it.
-- Which route serves a request is Starlette's choice, a parameter here: the first one that matches.
pub mod First
pub mod Shadowed
use qmtl.Base.{
  String, List, [], ◌∷◌, ◌++◌, Bool, true, false, not, ◌&&◌, Option, ◌==◌, any, ◌≡◌, some, none,
}

pub data Method : Type 0 where
  get post patch delete : Method

abbrev pub same_method : Method → Method → Bool
same_method get get = true
same_method post post = true
same_method patch patch = true
same_method delete delete = true
same_method _ _ = false

-- A part of a path: a text, or a parameter, which stands for any text without a slash that is not empty
pub data Segment : Type 0 where
  lit : String → Segment
  param : Segment

pub record Route : Type 0 where
  pub method : Method
  pub path : List Segment
  pub endpoint : String

abbrev pub route : Method → List Segment → String → Route
route method path endpoint = record { method = method; path = path; endpoint = endpoint }

abbrev pub registry : Method → List Segment → String → Route
registry method path endpoint = route method (lit "v1" ∷ lit "registry" ∷ path) endpoint

abbrev pub public : Method → List Segment → String → Route
public method path endpoint = registry method (lit "public" ∷ path) endpoint

abbrev pub internal : Method → List Segment → String → Route
internal method path endpoint = registry method (lit "internal" ∷ path) endpoint

-- `router` of api_callback.py
unfoldable pub callback_routes : List Route
callback_routes =
    registry post (lit "nodes" ∷ param ∷ lit "callbacks" ∷ []) "register_callback"
    ∷ registry delete (lit "nodes" ∷ param ∷ lit "callbacks" ∷ []) "unregister_callback"
    ∷ registry get (lit "nodes" ∷ param ∷ lit "callbacks" ∷ []) "list_callbacks"
    ∷ registry post (lit "nodes" ∷ param ∷ lit "callbacks" ∷ lit "trigger" ∷ []) "trigger_callbacks"
    ∷ []

-- `public_router`
unfoldable pub public_routes : List Route
public_routes =
    public get (lit "pipelines" ∷ param ∷ lit "dag" ∷ []) "get_pipeline_dag"
    ∷ public get (lit "pipelines" ∷ param ∷ lit "ready-nodes" ∷ []) "get_ready_nodes"
    ∷ public get (lit "nodes" ∷ param ∷ []) "get_node"
    ∷ public get (lit "nodes" ∷ lit "leaf-nodes" ∷ []) "get_leaf_nodes"
    ∷ public get (lit "nodes" ∷ lit "by-tags" ∷ []) "get_nodes_by_tags"
    ∷ public get (lit "strategies" ∷ param ∷ []) "get_strategy"
    ∷ public get (lit "strategies" ∷ []) "list_strategies"
    ∷ public get (lit "nodes" ∷ param ∷ lit "ref-count" ∷ []) "get_node_reference_count"
    ∷ public get (lit "nodes" ∷ param ∷ lit "ref-strategies" ∷ []) "get_node_reference_strategies"
    ∷ public get (lit "strategies" ∷ param ∷ lit "nodes" ∷ []) "get_strategy_nodes"
    ∷ public get (lit "nodes" ∷ param ∷ lit "status" ∷ []) "get_node_status"
    ∷ public get (lit "strategies" ∷ param ∷ lit "snapshots" ∷ []) "list_strategy_snapshots"
    ∷ public get (lit "nodes" ∷ param ∷ lit "dependencies" ∷ []) "get_node_dependencies"
    ∷ []

-- `internal_router`
unfoldable pub internal_routes : List Route
internal_routes =
    internal post (lit "nodes" ∷ []) "create_node"
    ∷ internal delete (lit "nodes" ∷ param ∷ []) "delete_node"
    ∷ internal patch (lit "nodes" ∷ param ∷ []) "update_node_partial"
    ∷ internal patch (lit "strategies" ∷ param ∷ []) "update_strategy_partial"
    ∷ internal post (lit "events" ∷ lit "node-status" ∷ []) "publish_node_status_event"
    ∷ internal post (lit "events" ∷ lit "pipeline-status" ∷ []) "publish_pipeline_status_event"
    ∷ internal post (lit "events" ∷ lit "alert" ∷ []) "publish_alert_event"
    ∷ internal post (lit "templates" ∷ lit "node" ∷ []) "create_node_template"
    ∷ internal post (lit "templates" ∷ lit "strategy" ∷ []) "create_strategy_template"
    ∷ internal post (lit "templates" ∷ lit "dag" ∷ []) "create_dag_template"
    ∷ internal post (lit "templates" ∷ param ∷ lit "permissions" ∷ []) "grant_template_permission"
    ∷ internal delete (lit "templates" ∷ param ∷ lit "permissions" ∷ param ∷ [])
        "revoke_template_permission"
    ∷ internal post (lit "nodes" ∷ param ∷ lit "status" ∷ []) "update_node_status"
    ∷ internal post (lit "strategies" ∷ param ∷ lit "snapshots" ∷ []) "create_strategy_snapshot"
    ∷ internal post (lit "strategies" ∷ param ∷ lit "rollback" ∷ []) "rollback_strategy_to_snapshot"
    ∷ internal post (lit "strategies" ∷ param ∷ lit "nodes" ∷ param ∷ []) "add_node_to_strategy"
    ∷ internal delete (lit "strategies" ∷ param ∷ lit "nodes" ∷ param ∷ [])
        "remove_node_from_strategy"
    ∷ internal post (lit "nodes" ∷ param ∷ lit "dependencies" ∷ param ∷ []) "add_node_dependency"
    ∷ internal delete (lit "nodes" ∷ param ∷ lit "dependencies" ∷ param ∷ [])
        "remove_node_dependency"
    ∷ []

-- The endpoints that are registered with the app itself
unfoldable pub app_routes : List Route
app_routes =
    route get (lit "" ∷ []) "health_check"
    ∷ route get (lit "health" ∷ []) "health"
    ∷ registry patch (lit "nodes" ∷ param ∷ []) "update_node_partial"
    ∷ registry patch (lit "strategies" ∷ param ∷ []) "update_strategy_partial"
    ∷ registry post (lit "events" ∷ lit "node-status" ∷ []) "publish_node_status_event"
    ∷ registry post (lit "events" ∷ lit "pipeline-status" ∷ []) "publish_pipeline_status_event"
    ∷ registry post (lit "events" ∷ lit "alert" ∷ []) "publish_alert_event"
    ∷ registry post (lit "templates" ∷ lit "node" ∷ []) "create_node_template"
    ∷ registry post (lit "templates" ∷ lit "strategy" ∷ []) "create_strategy_template"
    ∷ registry post (lit "templates" ∷ lit "dag" ∷ []) "create_dag_template"
    ∷ registry get (lit "templates" ∷ param ∷ []) "get_template"
    ∷ registry get (lit "templates" ∷ []) "list_templates"
    ∷ registry post (lit "templates" ∷ param ∷ lit "permissions" ∷ []) "grant_template_permission"
    ∷ registry get (lit "templates" ∷ param ∷ lit "permissions" ∷ []) "list_template_permissions"
    ∷ registry delete (lit "templates" ∷ param ∷ lit "permissions" ∷ param ∷ [])
        "revoke_template_permission"
    ∷ registry get (lit "pipelines" ∷ param ∷ lit "dag" ∷ []) "get_pipeline_dag"
    ∷ registry get (lit "pipelines" ∷ param ∷ lit "ready-nodes" ∷ []) "get_ready_nodes"
    ∷ registry post (lit "nodes" ∷ []) "create_node"
    ∷ registry get (lit "nodes" ∷ param ∷ []) "get_node"
    ∷ registry delete (lit "nodes" ∷ param ∷ []) "delete_node"
    ∷ registry get (lit "nodes" ∷ lit "leaf-nodes" ∷ []) "get_leaf_nodes"
    ∷ registry get (lit "nodes" ∷ lit "by-tags" ∷ []) "get_nodes_by_tags"
    ∷ registry get (lit "strategies" ∷ param ∷ []) "get_strategy"
    ∷ registry get (lit "strategies" ∷ []) "list_strategies"
    ∷ registry post (lit "strategies" ∷ param ∷ lit "nodes" ∷ param ∷ []) "add_node_to_strategy"
    ∷ registry delete (lit "strategies" ∷ param ∷ lit "nodes" ∷ param ∷ [])
        "remove_node_from_strategy"
    ∷ registry get (lit "nodes" ∷ param ∷ lit "ref-count" ∷ []) "get_node_reference_count"
    ∷ registry get (lit "nodes" ∷ param ∷ lit "ref-strategies" ∷ []) "get_node_reference_strategies"
    ∷ registry get (lit "strategies" ∷ param ∷ lit "nodes" ∷ []) "get_strategy_nodes"
    ∷ registry get (lit "nodes" ∷ param ∷ lit "status" ∷ []) "get_node_status"
    ∷ registry post (lit "nodes" ∷ param ∷ lit "status" ∷ []) "update_node_status"
    ∷ registry post (lit "strategies" ∷ param ∷ lit "snapshots" ∷ []) "create_strategy_snapshot"
    ∷ registry get (lit "strategies" ∷ param ∷ lit "snapshots" ∷ []) "list_strategy_snapshots"
    ∷ registry post (lit "strategies" ∷ param ∷ lit "rollback" ∷ []) "rollback_strategy_to_snapshot"
    ∷ registry get (lit "nodes" ∷ param ∷ lit "dependencies" ∷ []) "get_node_dependencies"
    ∷ registry post (lit "nodes" ∷ param ∷ lit "dependencies" ∷ param ∷ []) "add_node_dependency"
    ∷ registry delete (lit "nodes" ∷ param ∷ lit "dependencies" ∷ param ∷ [])
        "remove_node_dependency"
    ∷ []

-- All routes, in the order of the `include_router` calls and decorators
unfoldable pub routes : List Route
unfolding callback_routes public_routes internal_routes app_routes
routes = callback_routes ++ public_routes ++ internal_routes ++ app_routes

-- Does the route serve a request for this path, given by its parts between the slashes?
abbrev pub segment_matches : Segment → String → Bool
segment_matches (lit text) part = text == part
segment_matches param part = not (part == "")

abbrev pub path_matches : List Segment → List String → Bool
path_matches [] [] = true
path_matches (g ∷ gs) (p ∷ ps) = segment_matches g p && path_matches gs ps
path_matches [] (p ∷ ps) = false
path_matches (g ∷ gs) [] = false

abbrev pub serves : Route → Method → List String → Bool
serves r method path = same_method r.method method && path_matches r.path path

-- What Starlette documents: routes are tried in their order, and the first that matches serves the request.
pub record IsRouter (dispatch : List Route → Method → List String → Option String) : Type 0 where
  pub first :
      (before after : List Route) (r : Route) (method : Method) (path : List String)
      → any (λ q. serves q method path) before ≡ false
      → serves r method path ≡ true
      → dispatch (before ++ r ∷ after) method path ≡ some r.endpoint
  pub unmatched :
      (rs : List Route) (method : Method) (path : List String)
      → any (λ q. serves q method path) rs ≡ false
      → dispatch rs method path ≡ none
