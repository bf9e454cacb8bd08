-- ===== src/Sdk/Engine/Examples.antt =====
-- Small pipelines for the local engine, and the theorems at them.
use qmtl.Base.{
  keys, length, contains, true, arith, eq_iff, ◌⊎◌, String, false, List, [], ◌∷◌, ◌≡◌, refl, none,
  some, lookup, insert, erase, ok, err,
}
use qmtl.Sdk.Value.{atom}
use qmtl.Sdk.Node.{
  Function, validate_upstreams, args_by_name, args_by_place, build_args_no_upstream,
  build_args_single_upstream, build_fn_args, add_kwargs, execute,
}
use qmtl.Sdk.Pipeline.Sort.{
  validate_dependencies, dfs, dfs_all, dfs_unvisited, search, topological_sort,
}
use qmtl.Core.Graph.Spec.{Reaches}
use qmtl.Sdk.Pipeline.{cyclic, unknown_upstream}
use qmtl.Sdk.Pipeline.Sort.Matches.{data_of}
use qmtl.Sdk.Pipeline.Sort.Validated.{IsUnknown}
use qmtl.Sdk.Node.{NodeError, call_function}
use qmtl.Sdk.Engine.Reference.{gather_from, evaluate}
use qmtl.Sdk.Engine.Refines.{IsNamed}
use qmtl.Sdk.Engine.Decides.Sorted.{execute_pipeline_decides}
use qmtl.Sdk.Engine.Limit.{execute_node-with_timeout}
use qmtl.Sdk.History.{get_interval_data, save_interval_data}
use qmtl.Sdk.Saving.{amount_and_unit, inferred_ttl}
use qmtl.Sdk.Engine.{
  Node, Pipeline, Body, processing, source, Engine, finished, raised, node_failed, EngineError,
  unsorted, definitions, execute_node, with_timeout, Clock, gather, prepare_node_inputs, compute,
  run_node, run_order, trim_all, ordered, execute_pipeline,
}

program : Unit {0}
unfolding lookup insert erase validate_upstreams args_by_name args_by_place build_args_no_upstream
    build_args_single_upstream build_fn_args add_kwargs execute validate_dependencies dfs dfs_all
    dfs_unvisited search topological_sort get_interval_data save_interval_data gather
    prepare_node_inputs amount_and_unit compute run_node run_order trim_all ordered execute_pipeline
program = tt

abbrev node : String → List String → Body → Node
node name upstreams body = record {
  definition = record {
    name = name;
    tags = [];
    upstreams = upstreams;
    stream_settings = none;
    interval_settings = [];
  };
  body = body;
}

-- `lambda x: x`
abbrev identity : Function
identity = record {
  param_names = "x" ∷ [];
  has_kwargs = false;
  call = λ args. elim (lookup "x" args) [ none ↦ err "missing argument" | some v ↦ ok v ];
}

abbrev fetch : Function
fetch = record { param_names = []; has_kwargs = false; call = λ args. ok (atom "100") }

abbrev two_nodes : Pipeline
two_nodes = record {
  nodes =
      ("ema", node "ema" ("close" ∷ []) (processing [] identity))
      ∷ ("close", node "close" [] (source fetch))
      ∷ [];
  execution_order = [];
}

abbrev still : Clock
still i p = 5

abbrev idle : Engine
idle = record {
  results = [];
  node_execution_times = [];
  store = record { in_memory_cache = []; history = [] };
}

abbrev as_listed : List String → List String
as_listed xs = xs

runs :
    (e : Engine) × (p : Pipeline) × (execute_pipeline as_listed still none none two_nodes idle
      ≡ (finished e, p))
    × (e.results ≡ ("close", atom "100") ∷ ("ema", atom "100") ∷ [])
unfolding program
runs = (_, _, refl, refl)

infers : inferred_ttl "15m" ≡ some 900
unfolding program
infers = refl

-- With a time limit the same pipeline fails: the argument does not come under its name.
limited :
    (e : Engine) × (p : Pipeline) × (execute_pipeline as_listed still (some 9) none two_nodes idle
      ≡ (raised (node_failed "ema" (NodeError.raised "missing argument")) e, p))
unfolding program
limited = (_, _, refl)

evaluates : evaluate two_nodes.nodes none 2 "ema" ≡ ok (some (atom "100"))
unfolding program evaluate gather_from
evaluates = refl

two_nodes-IsNamed : IsNamed two_nodes.nodes
unfolding lookup
two_nodes-IsNamed x n h = ground (arith, eq_iff "ema" x, eq_iff "close" x)

execute_pipeline_decides_example :
    ((e' : Engine) × (p' : Pipeline) × (execute_pipeline as_listed still none none two_nodes idle
        ≡ (finished e', p'))
      × ((x : String)
          → contains x (keys two_nodes.nodes) ≡ true
          → evaluate two_nodes.nodes none (length two_nodes.nodes) x ≡ ok (lookup x e'.results)))
    ⊎ ((x : EngineError) × (e' : Engine) × (p' : Pipeline) × (execute_pipeline as_listed still none
            none two_nodes idle
          ≡ (raised x e', p'))
        × (name : String) × (contains name (keys two_nodes.nodes) ≡ true)
        × (evaluate two_nodes.nodes none (length two_nodes.nodes) name ≡ err x))
    ⊎ ((x : String) × (execute_pipeline as_listed still none none two_nodes idle
          ≡ (raised (unsorted (cyclic x)) idle, two_nodes))
        × ((y : String) × Reaches (data_of as_listed (definitions two_nodes.nodes)) y y))
    ⊎ ((name u : String) × (execute_pipeline as_listed still none none two_nodes idle
          ≡ (raised (unsorted (unknown_upstream name u)) idle, two_nodes))
        × IsUnknown (definitions two_nodes.nodes) name u)
execute_pipeline_decides_example =
    execute_pipeline_decides as_listed (λ xs y. refl) still two_nodes none idle refl
      (refl, (refl, tt)) two_nodes-IsNamed

execute_node-with_timeout_example :
    execute_node
      (with_timeout (some 9) false)
      (node "ema" ("close" ∷ []) (processing [] identity))
      (("close", atom "100") ∷ [])
    ≡ call_function identity (add_kwargs [] (("kwargs", atom "100") ∷ []))
unfolding lookup
execute_node-with_timeout_example =
    execute_node-with_timeout 8 (node "ema" ("close" ∷ []) (processing [] identity)) "close"
      (atom "100") [] identity (("close", atom "100") ∷ []) refl refl refl
