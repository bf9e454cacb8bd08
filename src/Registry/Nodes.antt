-- ===== src/Registry/Nodes.antt =====
-- registry/services/node/memory_impl.py: the in-memory node service. Its lock makes each method one
-- step, so that a method is a function of the state.
pub mod Linked
pub mod Run
pub mod Count
pub mod Query
pub mod Spec
use qmtl.Base.{
  ℕ, String, List, [], ◌∷◌, ◌++◌, Bool, true, false, ◌&&◌, ◌||◌, Option, none, some, ◌==◌,
  if◌then◌else◌, any, all, keep_if, contains, remove, length, Dict, lookup, insert, erase, has_key,
  is_some, or_else, values, Result, ok, err,
}
use qmtl.Registry.Links.{Links, at, link, unlink, unlink_all}

-- A field whose value may be a text or the number of a protobuf enumeration.
pub data Value : Type 0 where
  text : String → Value
  number : ℕ → Value

abbrev pub is_text : String → Value → Bool
is_text s (text t) = t == s
is_text s (number n) = false

-- A predefined tag: a member of an enumeration, with its `value`, or a plain value.
pub data Tag : Type 0 where
  member : Value → Tag
  plain : Value → Tag

abbrev pub tag_value : Tag → Value
tag_value (member v) = v
tag_value (plain v) = v

pub record NodeTags : Type 0 where
  pub predefined : List Tag
  pub custom : List String

pub record IntervalSettings : Type 0 where
  pub interval : Option Value
  pub period : Option Value

pub record ProtoNode : Type 0 where
  pub node_id : String
  pub dependencies : List String
  pub tags : Option NodeTags
  pub interval_settings : Option IntervalSettings

pub record NodeService : Type 0 where
  pub nodes : Dict ProtoNode
  pub node_strategy_map : Links
  pub strategy_node_map : Links
  pub node_statuses : Dict String

abbrev pub new_service : NodeService
new_service = record {
  nodes = [];
  node_strategy_map = [];
  strategy_node_map = [];
  node_statuses = [];
}

-- `NodeTags` is not imported where `create_node` names it.
pub data NameError : Type 0 where
  name_error : String → NameError

unfoldable pub create_node : ProtoNode → NodeService → Result NameError (NodeService × String)
create_node node s = elim node.tags [
  | none ↦ err (name_error "NodeTags")
  | some tags ↦ ok (record s { nodes = insert node.node_id node s.nodes }, node.node_id)
]

unfoldable pub get_node : String → NodeService → Option ProtoNode
get_node node_id s = lookup node_id s.nodes

unfoldable pub delete_node : String → NodeService → NodeService × Bool
delete_node node_id s =
    if has_key node_id s.nodes
    then (
      (if has_key node_id s.node_strategy_map
          then record s {
            nodes = erase node_id s.nodes;
            strategy_node_map =
                unlink_all node_id (at node_id s.node_strategy_map) s.strategy_node_map;
            node_strategy_map = erase node_id s.node_strategy_map;
          }
          else record s { nodes = erase node_id s.nodes }),
      true,
    )
    else (s, false)

unfoldable pub add_contains_relationship : String → String → NodeService → NodeService
add_contains_relationship strategy_version_id node_id s =
    if has_key node_id s.nodes
    then record s {
      node_strategy_map = link node_id strategy_version_id s.node_strategy_map;
      strategy_node_map = link strategy_version_id node_id s.strategy_node_map;
    }
    else s

unfoldable pub remove_contains_relationship : String → String → NodeService → NodeService
remove_contains_relationship strategy_version_id node_id s = record s {
  node_strategy_map = unlink node_id strategy_version_id s.node_strategy_map;
  strategy_node_map = unlink strategy_version_id node_id s.strategy_node_map;
}

unfoldable pub get_node_ref_count : String → NodeService → ℕ
get_node_ref_count node_id s =
    if has_key node_id s.node_strategy_map then length (at node_id s.node_strategy_map) else 0

unfoldable pub get_node_ref_strategies : String → NodeService → List String
get_node_ref_strategies node_id s =
    if has_key node_id s.node_strategy_map then at node_id s.node_strategy_map else []

-- `[nodes[i] for i in ids if i in nodes]`
abbrev pub stored_nodes : Dict ProtoNode → List String → List ProtoNode
stored_nodes nodes [] = []
stored_nodes nodes (i ∷ is) =
    let rest = stored_nodes nodes is in elim (lookup i nodes) [ none ↦ rest | some n ↦ n ∷ rest ]

unfoldable pub get_strategy_nodes : String → NodeService → List ProtoNode
get_strategy_nodes strategy_version_id s =
    if has_key strategy_version_id s.strategy_node_map
    then stored_nodes s.nodes (at strategy_version_id s.strategy_node_map)
    else []

unfoldable pub get_node_status : String → NodeService → Option String
get_node_status node_id s = lookup node_id s.node_statuses

unfoldable pub update_node_status : String → String → NodeService → NodeService
update_node_status node_id status s = record s {
  node_statuses = insert node_id status s.node_statuses;
}

unfoldable pub get_node_dependencies : String → NodeService → List String
get_node_dependencies node_id s = elim (lookup node_id s.nodes) [
  | none ↦ []
  | some node ↦ node.dependencies
]

unfoldable pub add_dependency : String → String → NodeService → NodeService
add_dependency node_id dependency_id s = elim (lookup node_id s.nodes) [
  | none ↦ s
  | some node ↦
      if has_key dependency_id s.nodes
      then (if contains dependency_id node.dependencies then s else record s {
        nodes =
            insert node_id (record node { dependencies = node.dependencies ++ dependency_id ∷ [] })
              s.nodes;
      })
      else s
]

unfoldable pub remove_dependency : String → String → NodeService → NodeService
remove_dependency node_id dependency_id s = elim (lookup node_id s.nodes) [
  | none ↦ s
  | some node ↦
      if contains dependency_id node.dependencies
      then record s {
        nodes =
            insert node_id (record node { dependencies = remove dependency_id node.dependencies })
              s.nodes;
      }
      else s
]
