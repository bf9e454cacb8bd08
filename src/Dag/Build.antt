-- ===== src/Dag/Build.antt =====
-- dag_manager/strategy/dag_service.py: `build_dag`, and what a sequence of additions leaves.
pub mod Orders
use qmtl.Base.{
  String, List, [], ◌∷◌, ◌++◌, ◌≡◌, refl, ◌∙◌, ap, sym, Bool, true, false, ◌==◌, if◌then◌else◌,
  contains, count, count-append, contains_of_count, Nodup, Dict, lookup, insert, lookup-insert,
  Result, arith, eq_iff, eq_refl,
}
use qmtl.Core.Node.{DataNode}
use qmtl.Dag.{
  DagService, reset, at, append_at, add_edges, clear_upstreams, init_downstreams, store_node,
  add_node, add_nodes,
}
use qmtl.Dag.Verify.{DagError, verify_acyclic}

-- `self.reset()`, the additions, and the test.
unfoldable pub build_dag : List DataNode → Result DagError DagService
build_dag ns = verify_acyclic (add_nodes ns reset)

at-append_at :
    (k j v : String) (d : Dict (List String))
    → at j (append_at k v d) ≡ (if k == j then at j d ++ v ∷ [] else at j d)
unfolding append_at
at-append_at k j v d = ground (arith, lookup-insert k j (at k d ++ v ∷ []) d, eq_iff k j)

-- The two maps hold the same edges, as often.
pub record IsMirrored (g : DagService) : Type 0 where
  pub mirrored :
      (x y : String) → count y (at x g.reverse_adjacency_list) ≡ count x (at y g.adjacency_list)

add_edges-IsMirrored :
    (k : String) (ds : List String) (g : DagService) → IsMirrored g → IsMirrored (add_edges k ds g)
unfolding add_edges
add_edges-IsMirrored k [] g i = i
add_edges-IsMirrored k (d ∷ ds) g i =
    add_edges-IsMirrored k ds
      (record g {
        reverse_adjacency_list = append_at k d g.reverse_adjacency_list;
        adjacency_list = append_at d k g.adjacency_list;
      })
      (record {
        mirrored = λ x y. ground (
          arith,
          at-append_at k x d g.reverse_adjacency_list,
          at-append_at d y k g.adjacency_list,
          count-append y (at x g.reverse_adjacency_list) (d ∷ []),
          count-append x (at y g.adjacency_list) (k ∷ []),
          i.mirrored x y,
          eq_iff k x,
          eq_iff d y,
        );
      })

append-nil : (xs : List String) → xs ++ [] ≡ xs
append-nil [] = refl
append-nil (x ∷ xs) = rw (append-nil xs)

snoc_append : (d : String) (xs ds : List String) → (xs ++ d ∷ []) ++ ds ≡ xs ++ d ∷ ds
snoc_append d [] ds = refl
snoc_append d (x ∷ xs) ds = rw (snoc_append d xs ds)

extend :
    (b : Bool) (d : String) (xs ds : List String)
    → (if b then xs ++ d ∷ [] else xs) ++ (if b then ds else []) ≡ xs ++ (if b then d ∷ ds else [])
extend true d xs ds = ground (arith, snoc_append d xs ds)
extend false d xs ds = ground (arith, append-nil xs)

add_edges-upstreams :
    (k j : String) (ds : List String) (g : DagService)
    → at j (add_edges k ds g).reverse_adjacency_list
      ≡ at j g.reverse_adjacency_list ++ (if k == j then ds else [])
unfolding add_edges
add_edges-upstreams k j [] g = ground (arith, append-nil (at j g.reverse_adjacency_list))
add_edges-upstreams k j (d ∷ ds) g =
    let next : DagService = record g {
      reverse_adjacency_list = append_at k d g.reverse_adjacency_list;
      adjacency_list = append_at d k g.adjacency_list;
    } in
    add_edges-upstreams k j ds next
    ∙ ap (λ v. v ++ (if k == j then ds else [])) (at-append_at k j d g.reverse_adjacency_list)
    ∙ extend (k == j) d (at j g.reverse_adjacency_list) ds

at-insert-nil :
    (k j : String) (d : Dict (List String)) → at k d ≡ [] → at j (insert k [] d) ≡ at j d
at-insert-nil k j d h = ground (arith, lookup-insert k j [] d, eq_iff k j)

record ReadsAlike (g g' : DagService) : Type 0 where
  upstreams : (j : String) → at j g'.reverse_adjacency_list ≡ at j g.reverse_adjacency_list
  downstreams : (j : String) → at j g'.adjacency_list ≡ at j g.adjacency_list

clear_upstreams-ReadsAlike :
    (n : DataNode) (g : DagService)
    → at n.node_id g.reverse_adjacency_list ≡ n.dependencies
    → ReadsAlike g (clear_upstreams n g)
clear_upstreams-ReadsAlike n g h = record {
  upstreams = λ j. ground (arith, at-insert-nil n.node_id j g.reverse_adjacency_list);
  downstreams = λ j. ground arith;
}

init_downstreams-ReadsAlike : (n : DataNode) (g : DagService) → ReadsAlike g (init_downstreams n g)
init_downstreams-ReadsAlike n g = record {
  upstreams = λ j. ground arith;
  downstreams = λ j. ground (arith, at-insert-nil n.node_id j g.adjacency_list);
}

-- A node whose id has no upstreams yet adds its own, and the maps stay mirrored.
record Adds (n : DataNode) (g g' : DagService) : Type 0 where
  mirrors : IsMirrored g → IsMirrored g'
  upstreams :
      (j : String)
      → at j g'.reverse_adjacency_list
        ≡ at j g.reverse_adjacency_list ++ (if n.node_id == j then n.dependencies else [])

add_node-Adds :
    (n : DataNode) (g : DagService)
    → at n.node_id g.reverse_adjacency_list ≡ []
    → Adds n g (add_node n g)
unfolding add_node
add_node-Adds n g fresh =
    let stored = store_node n g in
    let linked = add_edges n.node_id n.dependencies stored in
    let cleared = clear_upstreams n linked in
    let own = add_edges-upstreams n.node_id n.node_id n.dependencies stored in
    let a = clear_upstreams-ReadsAlike n linked (ground (arith, own, eq_refl n.node_id)) in
    let b = init_downstreams-ReadsAlike n cleared in
    record {
      mirrors = λ i. record {
        mirrored = λ x y. rw (b.upstreams x) (
            rw (b.downstreams y) (
              rw (a.upstreams x) (
                rw (a.downstreams y) (
                  (add_edges-IsMirrored n.node_id n.dependencies stored
                      (record { mirrored = i.mirrored })).mirrored
                    x y))));
      };
      upstreams = λ j.
          b.upstreams j ∙ a.upstreams j ∙ add_edges-upstreams n.node_id j n.dependencies stored;
    }

abbrev pub ids : List DataNode → List String
ids [] = []
ids (n ∷ ns) = n.node_id ∷ ids ns

-- The dependencies that the list declares for an id.
abbrev pub declared : String → List DataNode → List String
declared k [] = []
declared k (n ∷ ns) = if n.node_id == k then n.dependencies else declared k ns

declared_other :
    (k : String) (ns : List DataNode) → contains k (ids ns) ≡ false → declared k ns ≡ []
declared_other k [] h = refl
declared_other k (n ∷ ns) h = ground (arith, declared_other k ns, eq_iff n.node_id k)

combine :
    (b : Bool) (xs ys zs : List String)
    → (b ≡ true → zs ≡ [])
    → (xs ++ (if b then ys else [])) ++ zs ≡ xs ++ (if b then ys else zs)
combine true xs ys zs h = ground (arith, append-nil (xs ++ ys))
combine false xs ys zs h = ground (arith, append-nil xs)

pub add_nodes-mirrors :
    (ns : List DataNode) (g : DagService)
    → Nodup (ids ns)
    → ((k : String) → contains k (ids ns) ≡ true → at k g.reverse_adjacency_list ≡ [])
    → IsMirrored g
    → IsMirrored (add_nodes ns g)
      × ((k : String)
          → at k (add_nodes ns g).reverse_adjacency_list
            ≡ at k g.reverse_adjacency_list ++ declared k ns)
unfolding add_nodes
add_nodes-mirrors [] g d fresh i =
    (i, λ k. ground (arith, append-nil (at k g.reverse_adjacency_list)))
add_nodes-mirrors (n ∷ ns) g d fresh i =
    let a = add_node-Adds n g (fresh n.node_id (ground (arith, eq_refl n.node_id))) in
    let (j, r) =
      add_nodes-mirrors ns (add_node n g) d.1
        (λ k h. ground (arith, a.upstreams k, fresh k, eq_iff n.node_id k)) (a.mirrors i) in
    (
      j,
      λ k.
          r k
          ∙ ap (λ v. v ++ declared k ns) (a.upstreams k)
          ∙ combine (n.node_id == k) (at k g.reverse_adjacency_list) n.dependencies (declared k ns)
              (λ h. declared_other k ns (ground (arith, eq_iff n.node_id k))),
    )

-- After the additions of `build_dag`, for nodes with distinct ids, the upstreams of an id are the
-- dependencies that its node declares, in order, and nothing for other ids; and an id is among the
-- downstreams of another exactly if the other is among its upstreams.
pub add_nodes_edges :
    (ns : List DataNode)
    → Nodup (ids ns)
    → ((x : String) → at x (add_nodes ns reset).reverse_adjacency_list ≡ declared x ns)
      × ((x y : String)
          → contains x (at y (add_nodes ns reset).adjacency_list) ≡ contains y (declared x ns))
unfolding lookup
add_nodes_edges ns d =
    let (i, r) =
      add_nodes-mirrors ns reset d (λ k h. ground arith)
        (record { mirrored = λ x y. ground arith }) in
    (
      r,
      λ x y.
          contains_of_count x y (at y (add_nodes ns reset).adjacency_list)
            (at x (add_nodes ns reset).reverse_adjacency_list) (sym (i.mirrored x y))
          ∙ ap (contains y) (r x),
    )
