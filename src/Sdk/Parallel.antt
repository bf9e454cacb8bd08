-- ===== src/Sdk/Parallel.antt =====
-- sdk/execution/parallel_engine.py: what the task of a node does with each message that it consumes, and with
-- each turn where the node has no upstreams. Kafka hands over the messages and keeps what is published, in
-- order; results are saved by the state manager. Turns without a message, and the waits, change nothing.
pub mod Messages
mod Examples
use qmtl.Base.{
  ℕ, zero, suc, String, List, [], ◌∷◌, ◌++◌, Bool, true, false, Option, none, some, ◌==◌, nat_eq,
  length, if◌then◌else◌, Dict, lookup, insert, or_else, Result, ok, err,
}
use qmtl.Sdk.Value.{Value}
use qmtl.Sdk.Pipeline.{
  ProcessingNode, Scalar, text, number, Setting, Intervals, Legacy, scalar, nested,
}
use qmtl.Sdk.Node.{NodeError, call_function, execute, is_empty}
use qmtl.Sdk.Engine.{Body, processing, source}
use qmtl.Sdk.Saving.{inferred_ttl}
use qmtl.Sdk.State.{Redis, Json, save_history}
use qmtl.Sdk.Topic.{get_input_topic, get_output_topic}

pub record Node : Type 0 where
  pub node_id : String
  pub definition : ProcessingNode
  pub body : Body

-- `node_topics`: the input and the output topic of each node
abbrev pub Topics : Type 0
Topics = Dict (String × String)

unfoldable pub register_node : (pipeline_name node_name : String) → Topics → Topics
register_node pipeline_name node_name topics =
    insert node_name
      (get_input_topic pipeline_name node_name, get_output_topic pipeline_name node_name) topics

-- The loop of `prepare_pipeline` over the names of the nodes
unfoldable pub register_all : (pipeline_name : String) → List String → Topics → Topics
register_all pipeline_name [] topics = topics
register_all pipeline_name (n ∷ ns) topics =
    register_all pipeline_name ns (register_node pipeline_name n topics)

pub record Message : Type 0 where
  pub topic : String
  pub value : Value

-- `for upstream in node.upstreams: if upstream_output == upstream_topic: ...; break`; a node that is not
-- registered is a `KeyError`, here `none`.
unfoldable pub inputs_of : Topics → (upstreams : List String) → Message → Option (Dict Value)
inputs_of topics [] message = some []
inputs_of topics (u ∷ us) message =
    let rest = inputs_of topics us message in
    elim (lookup u topics) [
      | none ↦ none
      | some (input, output) ↦
          if output == message.topic then some ((u, message.value) ∷ []) else rest
    ]

-- The bounds under which a result is saved: the number of items, and the lifetime, from the period
abbrev period_ttl : Option Scalar → Option ℕ
period_ttl (some (text period)) = inferred_ttl period
period_ttl _ = none

abbrev or_hundred : Option ℕ → ℕ
or_hundred none = 100
or_hundred (some zero) = 100
or_hundred (some (suc n)) = suc n

abbrev legacy_bounds : Legacy → ℕ × Option ℕ
legacy_bounds (scalar v) = (100, none)
legacy_bounds (nested interval period max_history ttl) =
    (or_else 100 max_history, period_ttl period)

abbrev setting_bounds : Setting → ℕ × Option ℕ
setting_bounds s =
    if s.is_object then (or_hundred s.max_history, period_ttl s.period) else (100, none)

abbrev all_legacy : Dict Legacy → Dict (ℕ × Option ℕ)
all_legacy [] = []
all_legacy ((k, l) ∷ d) = (k, legacy_bounds l) ∷ all_legacy d

abbrev all_settings : Intervals → Dict (ℕ × Option ℕ)
all_settings [] = []
all_settings ((k, s) ∷ d) = (k, setting_bounds s) ∷ all_settings d

abbrev or_settings : Option Intervals → Dict (ℕ × Option ℕ)
or_settings none = []
or_settings (some intervals) = all_settings intervals

abbrev saved_bounds : Dict Legacy → Option Intervals → Dict (ℕ × Option ℕ)
saved_bounds [] intervals = or_settings intervals
saved_bounds (l ∷ ls) intervals = all_legacy (l ∷ ls)

abbrev pub node_bounds : ProcessingNode → Dict (ℕ × Option ℕ)
node_bounds node = saved_bounds node.interval_settings node.stream_settings

-- `node.execute(inputs)`
abbrev pub run_node : Node → Dict Value → Result NodeError Value
run_node node inputs = elim (node.body) [
  | processing kwargs fn ↦ execute node.definition kwargs fn inputs
  | source fn ↦ call_function fn []
]

module _ (R : Redis) (json : Json) (topics : Topics) where
  -- What has been published, oldest first, and the state manager's server
  pub record Effects : Type 0 where
    pub published : List (String × Value)
    pub state : R.State

  abbrev pub save_each :
      (now : ℕ) → (node_id : String) → Value → Dict (ℕ × Option ℕ) → R.State → R.State
  save_each now node_id v [] s = s
  save_each now node_id v ((interval, (max_items, ttl)) ∷ d) s =
      save_each now node_id v d (save_history R json now node_id interval v max_items ttl s).1

  abbrev pub publish_and_save : (now : ℕ) → Node → (output : String) → Value → Effects → Effects
  publish_and_save now node output v e = record {
    published = e.published ++ (output, v) ∷ [];
    state = save_each now node.node_id v (node_bounds node.definition) e.state;
  }

  -- An exception is only logged.
  abbrev pub finish :
      (now : ℕ) → Node → (output : String) → Result NodeError Value → Effects → Effects
  finish now node output (ok v) e = publish_and_save now node output v e
  finish now node output (err x) e = e

  abbrev pub execute_inputs :
      (now : ℕ) → Node → (output : String) → Option (Dict Value) → Effects → Effects
  execute_inputs now node output none e = e
  execute_inputs now node output (some inputs) e =
      if nat_eq (length inputs) (length node.definition.upstreams)
      then finish now node output (run_node node inputs) e
      else e

  -- One turn of the loop: without upstreams the node runs, and else a message is awaited.
  unfoldable pub turn : (now : ℕ) → Node → (output : String) → Option Message → Effects → Effects
  turn now node output message e =
      if is_empty node.definition.upstreams
      then finish now node output (run_node node []) e
      else elim message [
        | none ↦ e
        | some m ↦ execute_inputs now node output (inputs_of topics node.definition.upstreams m) e
      ]

  -- The loop over the turns, each with the time of its clock
  unfoldable pub execute_node :
      Node → (output : String) → List (ℕ × Option Message) → Effects → Effects
  execute_node node output [] e = e
  execute_node node output ((now, message) ∷ ms) e =
      execute_node node output ms (turn now node output message e)
