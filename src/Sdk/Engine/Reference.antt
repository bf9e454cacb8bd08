-- ===== src/Sdk/Engine/Reference.antt =====
-- What a pipeline computes, said without an order: the value of a node by recursion over its upstreams.
use qmtl.Base.{
  ℕ, zero, suc, String, List, [], ◌∷◌, Option, none, some, if◌then◌else◌, Dict, lookup, insert,
  Result, ok, err, ◌>>=◌,
}
use qmtl.Sdk.Value.{Value}
use qmtl.Sdk.Node.{is_empty}
use qmtl.Sdk.Engine.{
  Node, EngineError, key_error, out_of_fuel, no_result, node_failed, execute_node,
}

-- `ok none` for a node without upstreams and without input.
abbrev pub Evaluation : Type 0
Evaluation = Result EngineError (Option Value)

unfoldable pub gather_from :
    (String → Evaluation)
    → (name : String) → List String
    → Dict Value
    → Result EngineError (Dict Value)
gather_from value_of name [] d = ok d
gather_from value_of name (u ∷ us) d = elim (value_of u) [
  | err x ↦ err x
  | ok none ↦ err (no_result name u)
  | ok (some v) ↦ gather_from value_of name us (insert u v d)
]

abbrev pub apply_node : (name : String) → Node → Dict Value → Evaluation
apply_node name node d = elim (execute_node (λ fn. fn) node d) [
  | err x ↦ err (node_failed name x)
  | ok v ↦ ok (some v)
]

abbrev pub evaluate_node :
    (String → Evaluation) → Option (Dict Value) → (name : String) → Node → Evaluation
evaluate_node value_of none name node =
    gather_from value_of name node.definition.upstreams [] >>= apply_node name node
evaluate_node value_of (some given) name node =
    let computed =
      gather_from value_of name node.definition.upstreams [] >>= apply_node name node in
    if is_empty node.definition.upstreams then ok (lookup name given) else computed

-- The number bounds the depth of the upstreams.
unfoldable pub evaluate :
    (nodes : Dict Node) → (inputs : Option (Dict Value)) → ℕ → (name : String) → Evaluation
evaluate nodes inputs zero name = err out_of_fuel
evaluate nodes inputs (suc depth) name = elim (lookup name nodes) [
  | none ↦ err key_error
  | some node ↦ evaluate_node (evaluate nodes inputs depth) inputs name node
]
