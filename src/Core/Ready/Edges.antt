-- ===== src/Core/Ready/Edges.antt =====
-- The upstream map holds, for each given id, the dependencies of all nodes given under it.
use qmtl.Base.{
  String, List, [], ◌∷◌, ◌++◌, ◌≡◌, refl, ◌==◌, if◌then◌else◌, lookup, insert, lookup-insert,
  or_else, Dict, arith, eq_iff,
}
use mathlib.Core.List.{append-nil, append_assoc}
use qmtl.Core.Node.{DataNode}
use qmtl.Core.Ready.{no_edges, append_to, add_edges, all_edges, reverse_adjacency_list}

abbrev pub deps_given : String → List DataNode → List String
deps_given x [] = []
deps_given x (n ∷ ns) =
    let rest = deps_given x ns in if n.node_id == x then n.dependencies ++ rest else rest

abbrev edges_of : String → Dict (List String) → List String
edges_of x m = or_else [] (lookup x m)

no_edges_lem :
    (x : String) (ns : List DataNode) (m : Dict (List String))
    → edges_of x m ≡ []
    → edges_of x (no_edges ns m) ≡ []
no_edges_lem x [] m h = h
no_edges_lem x (n ∷ ns) m h =
    no_edges_lem x ns (insert n.node_id [] m) (ground (arith, lookup-insert n.node_id x [] m))

add_edges_lem :
    (x y : String) (deps : List String) (m : Dict (List String))
    → edges_of x (add_edges y deps m) ≡ (if y == x then edges_of x m ++ deps else edges_of x m)
add_edges_lem x y [] m = ground (arith, append-nil (edges_of x m))
add_edges_lem x y (dep ∷ deps) m = ground (
  arith,
  add_edges_lem x y deps (append_to y dep m),
  lookup-insert y x (edges_of y m ++ dep ∷ []) m,
  append_assoc (edges_of x m) (dep ∷ []) deps,
  eq_iff y x,
)

all_edges_lem :
    (x : String) (ns : List DataNode) (m : Dict (List String))
    → edges_of x (all_edges ns m) ≡ edges_of x m ++ deps_given x ns
all_edges_lem x [] m = ground (arith, append-nil (edges_of x m))
all_edges_lem x (n ∷ ns) m = ground (
  arith,
  all_edges_lem x ns (add_edges n.node_id n.dependencies m),
  add_edges_lem x n.node_id n.dependencies m,
  append_assoc (edges_of x m) n.dependencies (deps_given x ns),
)

pub reverse_adjacency_list_lem :
    (nodes : List DataNode) (x : String)
    → or_else [] (lookup x (reverse_adjacency_list nodes)) ≡ deps_given x nodes
unfolding reverse_adjacency_list
reverse_adjacency_list_lem nodes x = ground (
  arith,
  all_edges_lem x nodes (no_edges nodes []),
  no_edges_lem x nodes [] (unfold lookup in refl),
)
