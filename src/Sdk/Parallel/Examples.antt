-- ===== src/Sdk/Parallel/Examples.antt =====
-- A node that adds nothing to what it is given, and the theorems at it.
use qmtl.Base.{
  ℕ, String, List, [], ◌∷◌, ◌++◌, none, some, false, Option, ok, ◌≡◌, refl, lookup, insert, arith,
}
use qmtl.Sdk.Value.{atom}
use qmtl.Sdk.Node.{
  Function, execute, validate_upstreams, build_fn_args, build_args_single_upstream, add_kwargs,
}
use qmtl.Sdk.Engine.{processing}
use qmtl.Sdk.State.{Json}
use qmtl.Sdk.State.Memory.{memory}
use qmtl.Sdk.Topic.{sanitize_name, get_input_topic, get_output_topic}
use qmtl.Sdk.Parallel.{
  Node, Topics, Message, Effects, register_node, register_all, inputs_of, turn, execute_node,
}
use qmtl.Sdk.Parallel.Messages.{execute_node-same, outputs, execute_node-published}

abbrev echo : Function
echo = record {
  param_names = "x" ∷ [];
  has_kwargs = false;
  call = λ args. elim (lookup "x" args) [ none ↦ ok (atom "") | some v ↦ ok v ];
}

abbrev node : List String → Node
node upstreams = record {
  node_id = "n";
  definition = record {
    name = "n";
    tags = [];
    upstreams = upstreams;
    stream_settings = none;
    interval_settings = [];
  };
  body = processing [] echo;
}

abbrev json : Json
json = record { dumps = λ e. ""; loads = λ s. none; dumps_meta = λ m. ""; loads_meta = λ s. none }

program : Unit {0}
unfolding sanitize_name get_input_topic get_output_topic register_node register_all insert lookup
    inputs_of turn execute_node execute validate_upstreams build_fn_args build_args_single_upstream
    add_kwargs
program = tt

abbrev topics : Topics
topics =
    ("a", ("qmtl.input.p.a", "qmtl.output.p.a")) ∷ ("b", ("qmtl.input.p.b", "qmtl.output.p.b")) ∷ []

-- Blanks and underscores give the same topic.
registered :
    (register_all "p" ("a" ∷ "b" ∷ []) [] ≡ topics)
    × (get_output_topic "p" "a b" ≡ get_output_topic "p" "a_b")
unfolding program
registered = (refl, refl)

abbrev messages : List (ℕ × Option Message)
messages =
    (1, some (record { topic = "qmtl.output.p.a"; value = atom "1" }))
    ∷ (2, none)
    ∷ (3, some (record { topic = "qmtl.output.p.b"; value = atom "2" }))
    ∷ []

abbrev before : Effects memory json topics
before = record { published = []; state = record { lists = []; texts = []; deadlines = λ k. none } }

echoed :
    (execute_node memory json topics (node ("a" ∷ [])) "out" messages before).published
    ≡ ("out", atom "1") ∷ []
unfolding program
echoed = refl

execute_node-same_example :
    execute_node memory json topics (node ("a" ∷ "b" ∷ [])) "out" messages before ≡ before
execute_node-same_example =
    execute_node-same memory json topics (node ("a" ∷ "b" ∷ [])) "out" messages before (omega arith)

execute_node-published_example :
    (execute_node memory json topics (node ("a" ∷ [])) "out" messages before).published
    ≡ [] ++ outputs (node ("a" ∷ [])) "a" "qmtl.output.p.a" "out" messages
unfolding lookup
execute_node-published_example =
    execute_node-published (node ("a" ∷ [])) "a" "qmtl.output.p.a" "out" memory json topics
      "qmtl.input.p.a" refl refl messages before
