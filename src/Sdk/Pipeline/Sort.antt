-- ===== src/Sdk/Pipeline/Sort.antt =====
-- sdk/pipeline.py: the execution order of a pipeline. Python lists a set in an order of its own:
-- `set_order` stands for it.
pub mod Same
pub mod Refines
pub mod Matches
pub mod Validated
pub mod Decides
use qmtl.Base.{
  ℕ, zero, suc, String, List, [], ◌∷◌, ◌++◌, Option, none, some, if◌then◌else◌, length, keys, Dict,
  lookup, insert, has_key, Result, ok, err, ◌>>=◌,
}
use qmtl.Sdk.Pipeline.{
  ProcessingNode, Pipeline, PipelineError, unknown_upstream, cyclic, key_error, out_of_fuel,
}

-- The inner loop of `_validate_dependencies`.
abbrev pub check_upstreams :
    Dict ProcessingNode → String → List String → Result PipelineError (Dict ProcessingNode)
check_upstreams nodes name [] = ok nodes
check_upstreams nodes name (u ∷ us) =
    let rest = check_upstreams nodes name us in
    if has_key u nodes then rest else err (unknown_upstream name u)

abbrev pub check_all :
    Dict ProcessingNode → Dict ProcessingNode → Result PipelineError (Dict ProcessingNode)
check_all nodes [] = ok nodes
check_all nodes ((name, node) ∷ rest) =
    check_upstreams nodes name node.upstreams >>= λ same. check_all nodes rest

unfoldable pub validate_dependencies :
    Dict ProcessingNode → Result PipelineError (Dict ProcessingNode)
validate_dependencies nodes = check_all nodes nodes

-- 0, 1 and 2 of the source.
pub data Status : Type 0 where
  unvisited on_path done : Status

pub record Dfs : Type 0 where
  pub visited : Dict Status
  pub result : List String

abbrev pub Search : Type 0
Search = String → Dfs → Result PipelineError Dfs

unfoldable pub dfs_all : Search → List String → Dfs → Result PipelineError Dfs
dfs_all v [] s = ok s
dfs_all v (u ∷ us) s = v u s >>= dfs_all v us

abbrev pub mark : String → Dfs → Dfs
mark node s = record s { visited = insert node on_path s.visited }

abbrev pub finish : String → Dfs → Dfs
finish node s = record { visited = insert node done s.visited; result = s.result ++ node ∷ [] }

-- Below the two tests of `dfs`.
abbrev pub process : Search → Option (List String) → Search
process v none node s = err key_error
process v (some ups) node s = dfs_all v ups (mark node s) >>= λ s'. ok (finish node s')

-- By `visited[node]`, which has to be there.
abbrev pub by_status : Option Status → Search → Search
by_status none v node s = err key_error
by_status (some done) v node s = ok s
by_status (some on_path) v node s = err (cyclic node)
by_status (some unvisited) v node s = v node s

unfoldable pub dfs : Dict (List String) → ℕ → Search
dfs graph zero node s = err out_of_fuel
dfs graph (suc fuel) node s =
    by_status (lookup node s.visited) (process (dfs graph fuel) (lookup node graph)) node s

-- `if visited[node] == 0: dfs(node)`
abbrev pub if_unvisited : Option Status → Search → Search
if_unvisited none v node s = err key_error
if_unvisited (some unvisited) v node s = v node s
if_unvisited (some on_path) v node s = ok s
if_unvisited (some done) v node s = ok s

unfoldable pub dfs_unvisited : Search → List String → Dfs → Result PipelineError Dfs
dfs_unvisited v [] s = ok s
dfs_unvisited v (n ∷ ns) s = if_unvisited (lookup n s.visited) v n s >>= dfs_unvisited v ns

abbrev pub all_unvisited : List String → Dict Status
all_unvisited [] = []
all_unvisited (n ∷ ns) = (n, unvisited) ∷ all_unvisited ns

module _ (set_order : List String → List String) where
  -- `{name: set(node.upstreams) for …}`
  abbrev pub graph_of : Dict ProcessingNode → Dict (List String)
  graph_of [] = []
  graph_of ((name, node) ∷ d) = (name, set_order node.upstreams) ∷ graph_of d

  abbrev pub unsorted : Dict ProcessingNode → Dfs
  unsorted nodes = record { visited = all_unvisited (keys nodes); result = [] }

  unfoldable pub search : Dict ProcessingNode → Result PipelineError Dfs
  search nodes =
      dfs_unvisited (dfs (graph_of nodes) (suc (length nodes))) (keys nodes) (unsorted nodes)

  unfoldable pub topological_sort : Dict ProcessingNode → Result PipelineError (List String)
  topological_sort nodes = validate_dependencies nodes >>= λ same. search nodes >>= λ s. ok s.result

  -- The order is computed again only where there is none.
  unfoldable pub get_execution_order : Pipeline → Result PipelineError (List String × Pipeline)
  get_execution_order p = elim p.execution_order [
    | [] ↦ (topological_sort p.nodes >>= λ order. ok (order, record p { execution_order = order }))
    | x ∷ xs ↦ ok (x ∷ xs, p)
  ]
