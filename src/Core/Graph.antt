-- ===== src/Core/Graph.antt =====
-- dag_manager/core/graph_builder.py: the depth-first topological sort.
pub mod Spec
pub mod Frame
pub mod Order
pub mod Cycles
pub mod Acyclic
pub mod Total
use qmtl.Base.{
  ℕ, zero, suc, String, List, [], ◌∷◌, ◌++◌, Option, none, some, ◌==◌, if◌then◌else◌, contains,
  keep_if, not, length, lookup, Dict, Result, ok, err, ◌>>=◌,
}
use qmtl.Core.Node.{DataNode, node_map_of}

-- `cycle` is the ValueError, `missing` the KeyError of `node_map[nid]`. The model's recursion has
-- `out_of_fuel` besides, which does not occur.
pub data SortError : Type 0 where
  cycle missing out_of_fuel : SortError

-- The local sets `visited` and `temp_mark`, and `order`.
pub record Marks : Type 0 where
  pub visited : List String
  pub temp_mark : List String
  pub order : List String

-- `set.remove` of a member
abbrev pub discard : String → List String → List String
discard x xs = keep_if (λ y. not (y == x)) xs

abbrev pub Visit : Type 0
Visit = String → Marks → Result SortError Marks

-- `for dep in …: visit(dep)`
unfoldable pub visit_all : Visit → List String → Marks → Result SortError Marks
visit_all v [] s = ok s
visit_all v (d ∷ ds) s = v d s >>= visit_all v ds

abbrev pub enter : String → Marks → Marks
enter nid s = record s { temp_mark = nid ∷ s.temp_mark }

abbrev pub leave : String → Marks → Marks
leave nid s = record {
  visited = nid ∷ s.visited;
  temp_mark = discard nid s.temp_mark;
  order = s.order ++ nid ∷ [];
}

-- The part of `visit` below the two tests: the dependencies, then the node itself.
abbrev pub expand : Visit → Option DataNode → Visit
expand v none nid s = err missing
expand v (some node) nid s = visit_all v node.dependencies (enter nid s) >>= λ s'. ok (leave nid s')

unfoldable pub visit : Dict DataNode → ℕ → Visit
visit m zero nid s = err out_of_fuel
visit m (suc fuel) nid s =
    if contains nid s.visited
    then ok s
    else if contains nid s.temp_mark
    then err cycle
    else expand (visit m fuel) (lookup nid m) nid s

abbrev pub no_marks : Marks
no_marks = record { visited = []; temp_mark = []; order = [] }

abbrev pub ids : List DataNode → List String
ids [] = []
ids (n ∷ ns) = n.node_id ∷ ids ns

-- One call more than there are keys is deep enough.
unfoldable pub sort_marks : List DataNode → Result SortError Marks
sort_marks nodes =
    visit_all (visit (node_map_of nodes) (suc (length (node_map_of nodes)))) (ids nodes) no_marks

unfoldable pub get_topological_sort_result : List DataNode → Result SortError (List String)
get_topological_sort_result nodes = sort_marks nodes >>= λ s. ok s.order

unfoldable pub build_dag : List DataNode → Result SortError (Dict DataNode × List String)
build_dag nodes = get_topological_sort_result nodes >>= λ order. ok (node_map_of nodes, order)

-- An edge as `derive_edges` writes it.
pub record Edge : Type 0 where
  pub source : String
  pub target : String

abbrev pub edges_to : String → List String → List Edge
edges_to target [] = []
edges_to target (dep ∷ deps) = record { source = dep; target = target } ∷ edges_to target deps

unfoldable pub derive_edges : List DataNode → List Edge
derive_edges [] = []
derive_edges (n ∷ ns) = edges_to n.node_id n.dependencies ++ derive_edges ns
