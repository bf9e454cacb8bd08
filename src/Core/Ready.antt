-- ===== src/Core/Ready.antt =====
-- dag_manager/core/ready_node_selector.py and queue_worker.py: which nodes may run now.
pub mod Edges
pub mod Selection
use qmtl.Base.{
  String, List, [], ◌∷◌, ◌++◌, Bool, true, false, ◌||◌, ◌&&◌, Option, none, some, ◌==◌,
  if◌then◌else◌, all, lookup, insert, or_else, Dict, Result, ok, err, ◌>>=◌, not,
}
use qmtl.Core.Node.{DataNode}
use qmtl.Core.Graph.{SortError, missing, build_dag}

-- `_PENDING_STATES` and `_COMPLETED_STATES`
abbrev pub is_pending : Option String → Bool
is_pending none = true
is_pending (some state) = state == "PENDING" || state == "READY"

abbrev pub is_completed : Option String → Bool
is_completed none = false
is_completed (some state) = state == "COMPLETED"

abbrev pub no_edges : List DataNode → Dict (List String) → Dict (List String)
no_edges [] m = m
no_edges (n ∷ ns) m = no_edges ns (insert n.node_id [] m)

-- `edges_map[node_id].append(dep)`
abbrev pub append_to : String → String → Dict (List String) → Dict (List String)
append_to x dep m = insert x (or_else [] (lookup x m) ++ dep ∷ []) m

abbrev pub add_edges : String → List String → Dict (List String) → Dict (List String)
add_edges x [] m = m
add_edges x (dep ∷ deps) m = add_edges x deps (append_to x dep m)

abbrev pub all_edges : List DataNode → Dict (List String) → Dict (List String)
all_edges [] m = m
all_edges (n ∷ ns) m = all_edges ns (add_edges n.node_id n.dependencies m)

unfoldable pub reverse_adjacency_list : List DataNode → Dict (List String)
reverse_adjacency_list nodes = all_edges nodes (no_edges nodes [])

-- The loop over the order, below the `continue`.
abbrev pub is_ready : Dict String → Dict (List String) → String → Bool
is_ready statuses edges x =
    is_pending (lookup x statuses)
    && all (λ dep. is_completed (lookup dep statuses)) (or_else [] (lookup x edges))

unfoldable pub select :
    Dict String
    → Dict (List String)
    → Dict DataNode
    → List String
    → Result SortError (List DataNode)
select statuses edges node_map [] = ok []
select statuses edges node_map (x ∷ xs) =
    let rest = select statuses edges node_map xs in
    if is_ready statuses edges x
    then elim (lookup x node_map) [
      | none ↦ err missing
      | some node ↦ (rest >>= λ ns. ok (node ∷ ns))
    ]
    else rest

unfoldable pub get_ready_nodes : List DataNode → Dict String → Result SortError (List DataNode)
get_ready_nodes nodes statuses = build_dag nodes >>= λ (built : Dict DataNode × List String).
    select statuses (reverse_adjacency_list nodes) built.0 built.1
