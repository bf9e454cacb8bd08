-- ===== src/Dag.antt =====
-- dag_manager/strategy/dag_service.py: the DAG of a strategy, its cycle test and its order.
pub mod Verify
pub mod Sort
pub mod Build
mod Examples
use qmtl.Base.{
  String, List, [], ◌∷◌, ◌++◌, Bool, true, false, Option, none, some, if◌then◌else◌, Dict, lookup,
  insert, has_key, or_else, keys, values,
}
use qmtl.Core.Node.{DataNode}

pub record DagService : Type 0 where
  pub nodes : Dict DataNode
  pub adjacency_list : Dict (List String)
  pub reverse_adjacency_list : Dict (List String)
  pub verified : Bool

abbrev pub reset : DagService
reset = record { nodes = []; adjacency_list = []; reverse_adjacency_list = []; verified = false }

-- What `d[k]` returns for a `defaultdict(list)`.
abbrev pub at : String → Dict (List String) → List String
at k d = or_else [] (lookup k d)

-- `d[k].append(v)` on a `defaultdict(list)`
unfoldable pub append_at : String → String → Dict (List String) → Dict (List String)
append_at k v d = insert k (at k d ++ v ∷ []) d

-- The loop over the dependencies of a new node.
unfoldable pub add_edges : String → List String → DagService → DagService
add_edges node_id [] g = g
add_edges node_id (dep_id ∷ deps) g = add_edges node_id deps (record g {
  reverse_adjacency_list = append_at node_id dep_id g.reverse_adjacency_list;
  adjacency_list = append_at dep_id node_id g.adjacency_list;
})

abbrev is_empty : List String → Bool
is_empty [] = true
is_empty (x ∷ xs) = false

-- A node with no dependencies gets an empty list, whatever was there.
abbrev clear_upstreams : DataNode → DagService → DagService
clear_upstreams node g =
    if is_empty node.dependencies
    then record g { reverse_adjacency_list = insert node.node_id [] g.reverse_adjacency_list }
    else g

abbrev init_downstreams : DataNode → DagService → DagService
init_downstreams node g =
    if has_key node.node_id g.adjacency_list
    then g
    else record g { adjacency_list = insert node.node_id [] g.adjacency_list }

abbrev pub store_node : DataNode → DagService → DagService
store_node node g = record g { nodes = insert node.node_id node g.nodes }

unfoldable pub add_node : DataNode → DagService → DagService
unfolding add_edges
add_node node g =
    record (init_downstreams node
      (clear_upstreams node (add_edges node.node_id node.dependencies (store_node node g)))) {
        verified = false;
      }

unfoldable pub add_nodes : List DataNode → DagService → DagService
add_nodes [] g = g
add_nodes (n ∷ ns) g = add_nodes ns (add_node n g)

-- The ids whose list is empty: `get_root_nodes` and `get_leaf_nodes`.
abbrev pub empty_keys : Dict (List String) → List String
empty_keys [] = []
empty_keys ((k, v) ∷ d) = if is_empty v then k ∷ empty_keys d else empty_keys d

unfoldable pub get_root_nodes : DagService → List String
get_root_nodes g = empty_keys g.reverse_adjacency_list

unfoldable pub get_leaf_nodes : DagService → List String
get_leaf_nodes g = empty_keys g.adjacency_list

unfoldable pub get_node : String → DagService → Option DataNode
get_node node_id g = lookup node_id g.nodes

unfoldable pub get_all_nodes : DagService → List DataNode
get_all_nodes g = values g.nodes

-- `[nodes[i] for i in ids if i in nodes]`
abbrev pub stored_nodes : Dict DataNode → List String → List DataNode
stored_nodes nodes [] = []
stored_nodes nodes (i ∷ is) =
    let rest = stored_nodes nodes is in elim (lookup i nodes) [ none ↦ rest | some n ↦ n ∷ rest ]

unfoldable pub get_dependencies : String → DagService → List DataNode
get_dependencies node_id g =
    if has_key node_id g.reverse_adjacency_list
    then stored_nodes g.nodes (at node_id g.reverse_adjacency_list)
    else []

unfoldable pub get_dependents : String → DagService → List DataNode
get_dependents node_id g =
    if has_key node_id g.adjacency_list
    then stored_nodes g.nodes (at node_id g.adjacency_list)
    else []
