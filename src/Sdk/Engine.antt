-- ===== src/Sdk/Engine.antt =====
-- sdk/execution/local.py: `execute_pipeline`. `clock` gives what `time.time()` returns at each of its
-- calls, told apart by the round of the loop and the place in it, in whole seconds; the debug output is
-- left out. An execution time is kept as the two readings of which it is the difference.
pub mod Reference
pub mod Refines
pub mod Decides
pub mod Limit
mod Examples
use Prim.Native.String
use qmtl.Base.{
  ℕ, zero, suc, ◌+◌, ◌*◌, String, List, [], ◌∷◌, Bool, true, false, ◌&&◌, Option, none, some, ◌==◌,
  if◌then◌else◌, ltb, Dict, lookup, insert, has_key, or_else, Result, ok, err, ◌>>=◌,
}
use qmtl.Sdk.Value.{Value}
use qmtl.Sdk.Node.{Function, NodeError, is_empty, call_function, execute}
use qmtl.Sdk.Pipeline.{ProcessingNode, PipelineError, Setting, Intervals, Legacy, scalar, nested}
use qmtl.Sdk.Pipeline.Sort.{topological_sort}
use qmtl.Sdk.Saving.{node_bounds, save_all, trim_intervals}
use qmtl.Sdk.History.{Store, Item, take, cache_key, save_interval_data}

-- A `ProcessingNode` with its keyword arguments and its function, or a `SourceNode`, whose function
-- takes no arguments.
pub data Body : Type 0 where
  processing : (kwargs : Dict Value) → Function → Body
  source : Function → Body

pub record Node : Type 0 where
  pub definition : ProcessingNode
  pub body : Body

pub record Pipeline : Type 0 where
  pub nodes : Dict Node
  pub execution_order : List String

pub data EngineError : Type 0 where
  timed_out key_error out_of_fuel : EngineError
  unsorted : PipelineError → EngineError
  no_result : (name upstream : String) → EngineError
  node_failed : String → NodeError → EngineError

-- The engine, and the dicts that all engines share.
pub record Engine : Type 0 where
  pub results : Dict Value
  pub node_execution_times : Dict (ℕ × ℕ)
  pub store : Store

pub data Run : Type 0 where
  finished : Engine → Run
  raised : EngineError → Engine → Run

infixl 5 ◌then◌
abbrev pub ◌then◌ : Run → (Engine → Run) → Run
finished e then f = f e
raised x e then f = raised x e

-- The calls of `time.time()` in one round; the one before the loop counts to the first.
pub data Place : Type 0 where
  run_start round_start node_start execution_start in_call node_end final_check saving : Place

abbrev pub Clock : Type 0
Clock = ℕ → Place → ℕ

-- `timeout and (now - start > timeout)`
abbrev pub exceeds : (timeout : Option ℕ) → (start now : ℕ) → Bool
exceeds none start now = false
exceeds (some zero) start now = false
exceeds (some (suc t)) start now = ltb (suc t + start) now

-- `timeout_checked_fn(**kwargs)`; at least 0.05 seconds have passed if the readings differ.
abbrev pub timeout_checked_fn : (expired : Bool) → Function → Function
timeout_checked_fn expired fn = record {
  param_names = "kwargs" ∷ [];
  has_kwargs = true;
  call = λ args. if expired then err "timeout" else fn.call args;
}

abbrev pub with_timeout : (timeout : Option ℕ) → (expired : Bool) → Function → Function
with_timeout none expired fn = fn
with_timeout (some zero) expired fn = fn
with_timeout (some (suc t)) expired fn = timeout_checked_fn expired fn

-- `node.execute(node_inputs)`
abbrev pub execute_node :
    (Function → Function) → Node → (inputs : Dict Value) → Result NodeError Value
execute_node wrap node inputs = elim node.body [
  | processing kwargs fn ↦ execute node.definition kwargs (wrap fn) inputs
  | source fn ↦ call_function (wrap fn) []
]

-- The inputs from the upstreams.
unfoldable pub gather :
    (name : String)
    → (upstreams : List String) → (results inputs : Dict Value) → Result EngineError (Dict Value)
gather name [] results inputs = ok inputs
gather name (u ∷ us) results inputs = elim (lookup u results) [
  | none ↦ err (no_result name u)
  | some v ↦ gather name us results (insert u v inputs)
]

unfoldable pub prepare_node_inputs :
    ProcessingNode → (results : Dict Value) → Result EngineError (Dict Value)
prepare_node_inputs node results =
    elim (if is_empty node.upstreams then lookup node.name results else none) [
      | some v ↦ ok ((node.name, v) ∷ [])
      | none ↦ gather node.name node.upstreams results []
    ]

-- The end of a round.
abbrev pub record_result : (now : ℕ) → (name : String) → ProcessingNode → Value → Engine → Run
record_result now name node v e =
    finished (record e { store = save_all now name v (node_bounds node) e.store })

-- `self.results[name] = v`
abbrev pub set_result : String → Value → Engine → Engine
set_result name v e = record e { results = insert name v e.results }

-- An input goes into the results as it is; a node without upstreams and input is passed over.
abbrev pub take_input : String → Dict Value → Engine → Run
take_input name inputs e = elim (lookup name inputs) [
  | none ↦ finished e
  | some v ↦ finished (set_result name v e)
]

module _ (clock : Clock) (timeout : Option ℕ) where
  abbrev pub start : ℕ
  start = clock 0 run_start

  -- Whether `timeout_checked_fn` raises.
  abbrev pub expired_in_call : (round : ℕ) → Bool
  expired_in_call i =
      ltb (clock i execution_start) (clock i in_call) && exceeds timeout start (clock i in_call)

  abbrev pub store_result : (round : ℕ) → (name : String) → ProcessingNode → Value → Engine → Run
  store_result i name node v e =
      let e' : Engine = record e {
        results = insert name v e.results;
        node_execution_times =
            insert name (clock i node_start, clock i node_end) e.node_execution_times;
      } in
      if exceeds timeout start (clock i final_check)
      then raised timed_out e'
      else record_result (clock i saving) name node v e'

  -- `node.fn` stands in the node again after the call.
  unfoldable pub compute : (round : ℕ) → (name : String) → Node → Engine → Run
  compute i name node e = elim (prepare_node_inputs node.definition e.results) [
    | err x ↦ raised x e
    | ok inputs ↦ elim (execute_node (with_timeout timeout (expired_in_call i)) node inputs) [
      | err x ↦ raised (node_failed name x) e
      | ok v ↦ store_result i name node.definition v e
    ]
  ]

  -- The third test of the source needs inputs and a node without upstreams: the first two have taken it.
  unfoldable pub run_node :
      (inputs : Option (Dict Value)) → (round : ℕ) → (name : String) → Node → Engine → Run
  run_node none i name node e =
      let computed = compute i name node e in
      elim (if is_empty node.definition.upstreams then lookup name e.results else none) [
        | none ↦ computed
        | some v ↦ record_result (clock i saving) name node.definition v e
      ]
  run_node (some given) i name node e =
      let computed = compute i name node e in
      if is_empty node.definition.upstreams then take_input name given e else computed

  abbrev pub round :
      (nodes : Dict Node) → (inputs : Option (Dict Value)) → ℕ → (name : String) → Engine → Run
  round nodes inputs i name e =
      if exceeds timeout start (clock i round_start)
      then raised timed_out e
      else elim (lookup name nodes) [
        | none ↦ raised key_error e
        | some node ↦ run_node inputs i name node e
      ]

  unfoldable pub run_order :
      (nodes : Dict Node) → (inputs : Option (Dict Value)) → ℕ → List String → Engine → Run
  run_order nodes inputs i [] e = finished e
  run_order nodes inputs i (name ∷ order) e =
      round nodes inputs i name e then run_order nodes inputs (suc i) order

-- The loop over all nodes at the end.
unfoldable pub trim_all : Dict Node → Store → Store
trim_all [] s = s
trim_all ((name, node) ∷ nodes) s =
    trim_all nodes (trim_intervals name (or_else [] node.definition.stream_settings) s)

abbrev pub trimmed : Dict Node → Engine → Run
trimmed nodes e = finished (record e { store = trim_all nodes e.store })

abbrev pub definitions : Dict Node → Dict ProcessingNode
definitions [] = []
definitions ((name, node) ∷ nodes) = (name, node.definition) ∷ definitions nodes

module _ (set_order : List String → List String) (clock : Clock) where
  -- The order is computed where there is none, and stays in the pipeline.
  unfoldable pub ordered : Pipeline → Result PipelineError Pipeline
  ordered p = elim p.execution_order [
    | [] ↦
        (topological_sort set_order (definitions p.nodes) >>= λ order.
        ok (record p { execution_order = order }))
    | x ∷ xs ↦ ok p
  ]

  abbrev pub run_pipeline :
      (timeout : Option ℕ) → (inputs : Option (Dict Value)) → Pipeline → Engine → Run
  run_pipeline timeout inputs p e =
      run_order clock timeout p.nodes inputs 0 p.execution_order
        (record e { results = or_else [] inputs })
      then trimmed p.nodes

  -- Beside the run, the pipeline with its order.
  unfoldable pub execute_pipeline :
      (timeout : Option ℕ) → (inputs : Option (Dict Value)) → Pipeline → Engine → Run × Pipeline
  execute_pipeline timeout inputs p e = elim (ordered p) [
    | err x ↦ (raised (unsorted x) e, p)
    | ok p' ↦ (run_pipeline timeout inputs p' e, p')
  ]
