-- ===== src/Core/Examples.antt =====
-- Small graphs: a diamond, a cycle and a dangling dependency, and the theorems at them.
use qmtl.Base.{
  String, List, [], ◌∷◌, ◌≡◌, refl, true, Dict, lookup, insert, contains, ok, err, arith, eq_iff,
  keep_if, ◌⊎◌,
}
use qmtl.Core.Node.{DataNode, node_map_of}
use qmtl.Core.Graph.{
  ids, visit_all, visit, sort_marks, get_topological_sort_result, build_dag, cycle, missing,
}
use qmtl.Core.Graph.Spec.{IsOrdered, Reaches}
use qmtl.Core.Graph.Order.{get_topological_sort_result-IsOrdered}
use qmtl.Core.Graph.Total.{IsClosed, get_topological_sort_result_decides}
use qmtl.Core.Ready.{select, reverse_adjacency_list, get_ready_nodes}
use qmtl.Core.Ready.Selection.{may_run, get_ready_nodes_lem}

abbrev node : String → List String → DataNode
node id deps = record { node_id = id; dependencies = deps; payload = "" }

abbrev diamond : List DataNode
diamond = node "d" ("b" ∷ "c" ∷ []) ∷ node "b" ("a" ∷ []) ∷ node "c" ("a" ∷ []) ∷ node "a" [] ∷ []

abbrev ring : List DataNode
ring = node "x" ("y" ∷ []) ∷ node "y" ("x" ∷ []) ∷ []

abbrev pair : List DataNode
pair = node "q" ("p" ∷ []) ∷ node "p" [] ∷ []

abbrev sorted : List String
sorted = "a" ∷ "b" ∷ "c" ∷ "d" ∷ []

program : Unit {0}
unfolding sort_marks visit visit_all get_topological_sort_result build_dag node_map_of lookup insert
    select reverse_adjacency_list get_ready_nodes
program = tt

sort-diamond : get_topological_sort_result diamond ≡ ok sorted
unfolding program
sort-diamond = refl

sort-ring : get_topological_sort_result ring ≡ err cycle
unfolding program
sort-ring = refl

sort-dangling : get_topological_sort_result (node "a" ("z" ∷ []) ∷ []) ≡ err missing
unfolding program
sort-dangling = refl

get_topological_sort_result-IsOrdered_example :
    IsOrdered (node_map_of diamond) [] sorted
    × ((x : String) → contains x (ids diamond) ≡ true → contains x sorted ≡ true)
get_topological_sort_result-IsOrdered_example =
    get_topological_sort_result-IsOrdered diamond sorted sort-diamond

pair-IsClosed : IsClosed (node_map_of pair)
unfolding node_map_of lookup insert
pair-IsClosed x y edge = ground (arith, edge.stored, edge.listed, eq_iff "p" y)

get_topological_sort_result_decides_example :
    ((order : List String) × (get_topological_sort_result pair ≡ ok order)
      × ((x : String) → contains x (ids pair) ≡ true → ¬ Reaches (node_map_of pair) x x))
    ⊎ (get_topological_sort_result pair ≡ err cycle)
      × ((x : String) × Reaches (node_map_of pair) x x)
get_topological_sort_result_decides_example = get_topological_sort_result_decides pair pair-IsClosed

abbrev statuses : Dict String
statuses = ("a", "COMPLETED") ∷ ("b", "READY") ∷ []

ready-diamond :
    get_ready_nodes diamond statuses ≡ ok (node "b" ("a" ∷ []) ∷ node "c" ("a" ∷ []) ∷ [])
unfolding program
ready-diamond = refl

get_ready_nodes_lem_example :
    (ready : List DataNode) × (get_ready_nodes diamond statuses ≡ ok ready)
    × (ids ready ≡ keep_if (may_run diamond statuses) sorted)
get_ready_nodes_lem_example = get_ready_nodes_lem diamond statuses sorted sort-diamond
