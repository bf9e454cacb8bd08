-- ===== src/Dag/Examples.antt =====
-- Small graphs for the DAG service, and the theorems at them.
use qmtl.Base.{
  IsOrderedBy, String, List, [], ◌∷◌, ◌≡◌, ◌≢◌, refl, arith, contains, lookup, insert, ok, err, ◌⊎◌,
}
use qmtl.Core.Node.{DataNode}
use qmtl.Dag.{
  DagService, reset, append_at, add_edges, add_node, add_nodes, get_root_nodes, get_leaf_nodes,
}
use qmtl.Dag.Verify.{
  touch, detect, detect_all, detect_unvisited, walk, verify_acyclic, cyclic, incomplete,
  out_of_fuel,
}
use qmtl.Dag.Verify.Paths.{Reaches}
use qmtl.Dag.Verify.Decides.{IsVerified, verify_acyclic_decides}
use qmtl.Dag.Sort.{
  count_upstreams, count_degrees, lower_all, drain, sort_verified, get_topological_order,
}
use qmtl.Dag.Sort.Ends.{get_topological_order_ends}
use qmtl.Dag.Build.{build_dag, declared, ids}
use qmtl.Dag.Build.Orders.{IsSelfContained, add_nodes_ordered}

abbrev node : String → List String → DataNode
node id deps = record { node_id = id; dependencies = deps; payload = "" }

abbrev chain : List DataNode
chain = node "b" ("a" ∷ []) ∷ node "c" ("b" ∷ "a" ∷ []) ∷ node "a" [] ∷ []

abbrev ring : List DataNode
ring = node "x" ("y" ∷ []) ∷ node "y" ("x" ∷ []) ∷ []

abbrev dangling : List DataNode
dangling = node "a" ("z" ∷ []) ∷ []

program : Unit {0}
unfolding lookup insert append_at add_edges add_node add_nodes get_root_nodes get_leaf_nodes touch
    detect detect_all detect_unvisited walk verify_acyclic count_upstreams count_degrees lower_all
    drain sort_verified get_topological_order build_dag
program = tt

abbrev built : List DataNode → DagService
built ns = add_nodes ns reset

order-chain :
    (g : DagService) × (get_topological_order (built chain) ≡ ok ("a" ∷ "b" ∷ "c" ∷ [], g))
unfolding program
order-chain = (_, refl)

build-ring : build_dag ring ≡ err (cyclic "x")
unfolding program
build-ring = refl

-- An upstream that is not among the nodes passes the cycle test, but no order is found.
build-dangling : (g : DagService) × (build_dag dangling ≡ ok g) × (get_root_nodes g ≡ "z" ∷ [])
unfolding program
build-dangling = (_, refl, refl)

order-dangling : get_topological_order (built dangling) ≡ err incomplete
unfolding program
order-dangling = refl

verify_acyclic_decides_example :
    ((g' : DagService) × (verify_acyclic (built chain) ≡ ok g') × IsVerified (built chain) g')
    ⊎ ((x : String) × (verify_acyclic (built chain) ≡ err (cyclic x))
        × Reaches (built chain).reverse_adjacency_list x x)
verify_acyclic_decides_example = verify_acyclic_decides (built chain)

get_topological_order_ends_example : get_topological_order (built chain) ≢ err out_of_fuel
get_topological_order_ends_example = get_topological_order_ends (built chain)

chain-IsSelfContained : IsSelfContained chain
chain-IsSelfContained k u h = ground arith

add_nodes_ordered_example :
    ((order : List String) × (g' : DagService) × (get_topological_order (add_nodes chain reset)
        ≡ ok (order, g'))
      × IsOrderedBy (λ v. declared v chain) [] order
      × ((x : String) → contains x order ≡ contains x (ids chain)))
    ⊎ ((x : String) × (get_topological_order (add_nodes chain reset) ≡ err (cyclic x))
        × Reaches (add_nodes chain reset).reverse_adjacency_list x x)
add_nodes_ordered_example = add_nodes_ordered chain (refl, (refl, (refl, tt))) chain-IsSelfContained
