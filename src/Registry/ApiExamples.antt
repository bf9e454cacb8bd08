-- ===== src/Registry/ApiExamples.antt =====
-- The API and its client on a small registry, and the theorems at it.
use qmtl.Base.{
  ℕ, ◌≤◌, String, [], ◌∷◌, true, false, Option, none, some, Result, ok, err, ◌≡◌, ◌≢◌, refl, ◌↔◌,
  arith, if◌then◌else◌, has_key, lookup, insert, erase,
}
use qmtl.Registry.Nodes.{ProtoNode, NodeService, new_service}
use qmtl.Registry.Nodes
use qmtl.Registry.Services.{Exception}
use qmtl.Registry.Services.Validation.{validate_proto_node}
use qmtl.Registry.Api.Json.{
  Json, text, object, Fields, empty, field, get, set, rename_into, rename_keys,
}
use qmtl.Registry.Api.Names.{camel_to_snake, lower, lower_char, one_of, split_words, split_capitals}
use qmtl.Registry.Api.{Reply, node_id, node, dependencies, status, node_missing, not_found}
use qmtl.Registry.Api
use qmtl.Registry.Api.Create
use qmtl.Registry.Api.Create.{normalize}
use qmtl.Registry.Api.Relations
use qmtl.Registry.Api.Calls.{
  test_services, serve, serve_all, create_node, get_node, delete_node, get_node_dependencies,
  add_node_to_strategy,
}
use qmtl.Registry.Api.Calls.Links.{serve_all-get_node_ref_count}
use qmtl.Registry.Api.Calls.Nodes.{IsValid, create_node-get_node, create_node-no_dependencies}
use qmtl.Registry.Api.Routes.{Method, routes}
use qmtl.Registry.Api.Routes
use qmtl.Registry.Api.Routes.First.{first_match, first_match-IsRouter}
use qmtl.Registry.Api.Routes.Shadowed.{dispatch-ne}
use qmtl.Registry.Api.Clients.{all_ready, total, metadata_service, all_ready_iff}
use qmtl.Db.Pool.{Settings, new_pool}
use qmtl.Registry.Client
use qmtl.Registry.Client.{Response, plain, Failure, Transport}
use qmtl.Registry.Client.Status.{always, Raises, other_status}
use qmtl.Registry.Api.Paths.{split, parts, is_word}
use qmtl.Registry.Client.OverApi.{over_api, over_api_lem}

abbrev id : String
id = "0123456789abcdef0123456789abcdef"

abbrev stored_node : ProtoNode
stored_node = record {
  node_id = id;
  dependencies = [];
  tags = some (record { predefined = []; custom = [] });
  interval_settings = none;
}

-- A parser that knows one node
abbrev parse : Fields → Result Exception ProtoNode
parse empty = ok (record stored_node { node_id = "" })
parse (field k v fs) = ok stored_node

abbrev given : Option Json
given = some (
    object (
      field "nodeId" (text id)
        (field "intervalSettings" (object (field "interval" (text "1d") empty)) empty)))

program : Unit {0}
unfolding serve serve_all Create.create_node normalize rename_keys rename_into set get
    camel_to_snake lower lower_char one_of split_words split_capitals validate_proto_node
    Nodes.create_node Nodes.get_node Api.get_node Api.delete_node Nodes.delete_node lookup insert
    erase Relations.add_node_to_strategy first_match routes
program = tt

abbrev with_node : NodeService
with_node = record new_service { nodes = (id, stored_node) ∷ [] }

snake : camel_to_snake "intervalSettings" ≡ "interval_settings"
unfolding program
snake = refl

normalized :
    normalize given
    ≡ ok (
        field "node_id"
          (text id)
          (field "interval_settings" (object (field "interval" (text "DAY") empty)) empty))
unfolding program
normalized = refl

created :
    serve parse (test_services false) (create_node given) new_service ≡ (with_node, ok (node_id id))
unfolding program
created = refl

create_node-get_node_example :
    (n : ProtoNode) × IsValid false n
    × (n.node_id ≡ id)
    × (serve parse (test_services false) (get_node id) with_node ≡ (with_node, ok (node n)))
    × ((serve parse
          (test_services false)
          (get_node id)
          (serve parse (test_services false) (delete_node id) with_node).0).1
        ≡ err (node_missing id))
create_node-get_node_example =
    create_node-get_node parse false given new_service with_node id created

create_node-no_dependencies_example :
    serve parse (test_services false) (get_node_dependencies id) with_node
    ≡ (with_node, ok (dependencies []))
create_node-no_dependencies_example =
    create_node-no_dependencies parse given new_service with_node id created

serve_all-get_node_ref_count_example :
    Nodes.get_node_ref_count id (
      serve_all parse
        (test_services true)
        new_service
        (create_node given ∷ add_node_to_strategy "s" id ∷ []))
    ≡ 0
serve_all-get_node_ref_count_example =
    serve_all-get_node_ref_count parse true (create_node given ∷ add_node_to_strategy "s" id ∷ [])
      id

leaf_nodes :
    first_match routes Routes.get ("v1" ∷ "registry" ∷ "nodes" ∷ "leaf-nodes" ∷ [])
    ≡ some "get_node"
unfolding program
leaf_nodes = refl

dispatch-ne_example :
    (first_match routes Routes.get ("v1" ∷ "registry" ∷ "nodes" ∷ "leaf-nodes" ∷ [])
      ≢ some "get_leaf_nodes")
    × (first_match routes Routes.get ("v1" ∷ "registry" ∷ "nodes" ∷ "leaf-nodes" ∷ [])
        ≢ some "get_nodes_by_tags")
dispatch-ne_example =
    dispatch-ne first_match first_match-IsRouter Routes.get
      ("v1" ∷ "registry" ∷ "nodes" ∷ "leaf-nodes" ∷ [])

abbrev settings : Settings
settings = record { uri = none; username = none; password = none }

all_ready_iff_example :
    (all_ready {A = ℕ}
        (ok 7)
        (metadata_service ∷ metadata_service ∷ metadata_service ∷ metadata_service ∷ [])
        (new_pool settings 10)
      ≡ true)
    ↔ (total (metadata_service ∷ metadata_service ∷ metadata_service ∷ metadata_service ∷ []) ≤ 10)
all_ready_iff_example =
    all_ready_iff 7 settings 10
      (metadata_service ∷ metadata_service ∷ metadata_service ∷ metadata_service ∷ [])

abbrev broken : Response
broken = record { status_code = 500; body = plain "Internal Server Error" }

abbrev refuse : Json → Result Failure ProtoNode
refuse v = err (Client.other "model_validate")

other_status_example :
    (Raises broken (Client.delete_node (always broken) id with_node)
      × Raises broken (Client.get_node_ref_count (always broken) id with_node)
      × Raises broken (Client.get_node_ref_strategies (always broken) id with_node)
      × Raises broken (Client.get_strategy_nodes (always broken) refuse "s" with_node))
    × ((Client.get_node (always broken) refuse id with_node).1 ≡ ok none)
    × ((Client.get_strategy (always broken) refuse "s" with_node).1 ≡ ok none)
    × ((Client.add_contains_relationship (always broken) "s" id with_node).1 ≡ ok false)
    × ((Client.remove_contains_relationship (always broken) "s" id with_node).1 ≡ ok true)
other_status_example =
    other_status broken refuse "s" id with_node (λ e. absurd (omega (arith, e)))
      (λ e. absurd (omega (arith, e))) (λ e. absurd (omega (arith, e)))

abbrev server : Transport NodeService
server = over_api parse true (λ n. field "node_id" (text n.node_id) empty) (always broken)

-- An id with a slash leads to no route.
slash_id : first_match routes Routes.delete (parts "/v1/registry/nodes/a/b") ≡ none
unfolding program parts split
slash_id = refl

over_api_lem_example :
    (Client.delete_node server id with_node
      ≡ ((Nodes.delete_node id with_node).0, ok (has_key id with_node.nodes)))
    × (Client.add_contains_relationship server "s" id with_node ≡ (with_node, ok false))
    × (Client.remove_contains_relationship server "s" id with_node
        ≡ (Nodes.remove_contains_relationship "s" id with_node, ok true))
    × (Client.get_node_ref_count server id with_node ≡ (
      with_node,
      ok (if has_key id with_node.nodes then Nodes.get_node_ref_count id with_node else 0),
    ))
    × (Client.get_node_ref_strategies server id with_node ≡ (
      with_node,
      ok (if has_key id with_node.nodes then Nodes.get_node_ref_strategies id with_node else []),
    ))
over_api_lem_example =
    over_api_lem parse true (λ n. field "node_id" (text n.node_id) empty) (always broken) "s" id
      with_node (unfold is_word in refl) (unfold is_word in refl)
