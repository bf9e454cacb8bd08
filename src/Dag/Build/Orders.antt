-- ===== src/Dag/Build/Orders.antt =====
-- `get_topological_order` on a graph that was built from a list of nodes.
use qmtl.Base.{
  IsOrderedBy-same, IsOrderedBy, String, List, [], ◌∷◌, ◌≡◌, refl, ◌∙◌, sym, ap, true, false, ◌||◌,
  contains, contains_of_count, contains-keys-insert, Nodup-keys-insert, Nodup, lookup, insert, keys,
  ok, err, arith, inl, inr, ◌⊎◌,
}
use qmtl.Core.Node.{DataNode}
use qmtl.Dag.{DagService, reset, at, append_at, store_node, add_edges, add_node, add_nodes}
use qmtl.Dag.Build.{ids, declared, add_nodes-mirrors}
use qmtl.Dag.Verify.{cyclic}
use qmtl.Dag.Verify.Paths.{Reaches}
use qmtl.Dag.Sort.{get_topological_order}
use qmtl.Dag.Sort.Order.{IsConsistent}
use qmtl.Dag.Sort.Order.Decides.{IsClosed, get_topological_order_decides}

add_edges-nodes :
    (k : String) (ds : List String) (g : DagService) → (add_edges k ds g).nodes ≡ g.nodes
unfolding add_edges
add_edges-nodes k [] g = refl
add_edges-nodes k (d ∷ ds) g = add_edges-nodes k ds (record g {
  reverse_adjacency_list = append_at k d g.reverse_adjacency_list;
  adjacency_list = append_at d k g.adjacency_list;
})

add_node-nodes : (n : DataNode) (g : DagService) → (add_node n g).nodes ≡ insert n.node_id n g.nodes
unfolding add_node
add_node-nodes n g = ground (arith, add_edges-nodes n.node_id n.dependencies (store_node n g))

add_nodes-keys :
    (ns : List DataNode) (g : DagService)
    → Nodup (keys g.nodes)
    → Nodup (keys (add_nodes ns g).nodes)
      × ((x : String)
          → contains x (keys (add_nodes ns g).nodes)
            ≡ (contains x (ids ns) || contains x (keys g.nodes)))
unfolding add_nodes
add_nodes-keys [] g u = (u, λ x. refl)
add_nodes-keys (n ∷ ns) g u =
    let next = add_node n g in
    let (u', members) =
      add_nodes-keys ns next (rw (add_node-nodes n g) (Nodup-keys-insert n.node_id n g.nodes u)) in
    (
      u',
      λ x. ground (
        arith,
        members x,
        ap (λ d. contains x (keys d)) (add_node-nodes n g),
        contains-keys-insert n.node_id x n g.nodes,
      ),
    )

add_nodes-verified :
    (ns : List DataNode) (g : DagService) → g.verified ≡ false → (add_nodes ns g).verified ≡ false
unfolding add_nodes add_node
add_nodes-verified [] g h = h
add_nodes-verified (n ∷ ns) g h = add_nodes-verified ns (add_node n g) refl

-- Every dependency that is declared is the id of a node.
abbrev pub IsSelfContained : List DataNode → Type 0
IsSelfContained ns = (k u : String) → contains u (declared k ns) ≡ true → contains u (ids ns) ≡ true

declared-ids :
    (k u : String) (ns : List DataNode)
    → contains u (declared k ns) ≡ true
    → contains k (ids ns) ≡ true
declared-ids k u [] h = absurd (ground arith)
declared-ids k u (n ∷ ns) h = ground (arith, declared-ids k u ns)

record IsBuilt (ns : List DataNode) (g : DagService) : Type 0 where
  consistent : IsConsistent g
  closed : IsClosed g
  reads : (x : String) → at x g.reverse_adjacency_list ≡ declared x ns
  members : (x : String) → contains x (keys g.nodes) ≡ contains x (ids ns)
  untested : g.verified ≡ false

add_nodes-IsBuilt :
    (ns : List DataNode) → Nodup (ids ns) → IsSelfContained ns → IsBuilt ns (add_nodes ns reset)
unfolding lookup
add_nodes-IsBuilt ns d closed =
    let (i, reads) =
      add_nodes-mirrors ns reset d (λ k h. ground arith)
        (record { mirrored = λ x y. ground arith }) in
    let (once, keyed) = add_nodes-keys ns reset tt in
    let g = add_nodes ns reset in
    let members : (x : String) → contains x (keys g.nodes) ≡ contains x (ids ns) =
      λ x. ground (arith, keyed x) in
    record {
      consistent = record {
        once = once;
        mirrored = λ c v. sym (i.mirrored v c);
        downstream_nodes = λ x v given. ground (
          arith,
          members v,
          contains_of_count v x (at x g.adjacency_list) (at v g.reverse_adjacency_list)
              (sym (i.mirrored v x)),
          ap (contains x) (reads v),
          declared-ids v x ns,
        );
      };
      closed = λ x u node given. ground (arith, members u, closed x u, ap (contains u) (reads x));
      reads = reads;
      members = members;
      untested = add_nodes-verified ns reset refl;
    }

-- For nodes with distinct ids whose dependencies are all ids of nodes in the list, the graph that the
-- additions of `build_dag` leave is ordered or has a cycle: either `get_topological_order` returns
-- exactly the ids, each once and after all the dependencies that its node declares; or it raises the
-- cyclic error, and the id that the error names reaches itself by its upstreams.
pub add_nodes_ordered :
    (ns : List DataNode)
    → Nodup (ids ns)
    → IsSelfContained ns
    → ((order : List String) × (g' : DagService) × (get_topological_order (add_nodes ns reset)
          ≡ ok (order, g'))
        × IsOrderedBy (λ v. declared v ns) [] order
        × ((x : String) → contains x order ≡ contains x (ids ns)))
      ⊎ ((x : String) × (get_topological_order (add_nodes ns reset) ≡ err (cyclic x))
          × Reaches (add_nodes ns reset).reverse_adjacency_list x x)
add_nodes_ordered ns d closed =
    let b = add_nodes-IsBuilt ns d closed in
    elim (get_topological_order_decides (add_nodes ns reset) b.consistent b.closed b.untested) [
      | inr cycle ↦ inr cycle
      | inl (order, g', run, o) ↦ inl (
        order,
        g',
        run,
        IsOrderedBy-same _ _ [] order b.reads o.ordered,
        λ x. o.all_nodes x ∙ b.members x,
      )
    ]
