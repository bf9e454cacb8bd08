-- ===== src/Sdk/Parallel/Messages.antt =====
-- Which messages make a node run.
use mathlib.Core.List.{append-nil, append_assoc}
use qmtl.Base.{
  ℕ, ◌≤◌, String, List, [], ◌∷◌, ◌++◌, Option, none, some, ◌==◌, length, ◌≡◌, refl, ◌∙◌, sym, ap,
  arith, if◌then◌else◌, Dict, lookup, Result, ok, err, Bool-cases, inl, inr,
}
use qmtl.Sdk.Value.{Value}
use qmtl.Sdk.Node.{NodeError}
use qmtl.Sdk.State.{Redis, Json}
use qmtl.Sdk.Parallel.{
  Node, Topics, Message, inputs_of, Effects, finish, execute_inputs, turn, execute_node, run_node,
}

-- A message stands for at most one upstream.
inputs_of-length :
    (topics : Topics) (us : List String) (m : Message) (inputs : Dict Value)
    → inputs_of topics us m ≡ some inputs
    → length inputs ≤ 1
unfolding inputs_of
inputs_of-length topics [] m inputs h = ground arith
inputs_of-length topics (u ∷ us) m inputs h = ground (arith, inputs_of-length topics us m inputs)

module _ (R : Redis) (json : Json) (topics : Topics) (node : Node) (output : String) where
  execute_inputs-same :
      (now : ℕ) (o : Option (Dict Value)) (e : Effects R json topics)
      → 2 ≤ length node.definition.upstreams
      → ((inputs : Dict Value) → o ≡ some inputs → length inputs ≤ 1)
      → execute_inputs R json topics now node output o e ≡ e
  execute_inputs-same now none e several few = refl
  execute_inputs-same now (some inputs) e several few = ground (arith, few inputs refl)

  turn-same :
      (now : ℕ) (m : Option Message) (e : Effects R json topics)
      → 2 ≤ length node.definition.upstreams
      → turn R json topics now node output m e ≡ e
  unfolding turn
  turn-same now none e several = ground arith
  turn-same now (some m) e several =
      let same =
        execute_inputs-same now (inputs_of topics node.definition.upstreams m) e several
          (inputs_of-length topics node.definition.upstreams m) in
      ground arith

  -- A node with two upstreams or more never runs: whatever messages it consumes, nothing is published and
  -- nothing is saved.
  pub execute_node-same :
      (ms : List (ℕ × Option Message)) (e : Effects R json topics)
      → 2 ≤ length node.definition.upstreams
      → execute_node R json topics node output ms e ≡ e
  unfolding execute_node
  execute_node-same [] e several = refl
  execute_node-same ((now, m) ∷ ms) e several =
      rw (turn-same now m e several) (execute_node-same ms e several)

-- What a node with one upstream publishes for a message
module _ (node : Node) (upstream upstream_output output : String) where
  abbrev published_for : Result NodeError Value → List (String × Value)
  published_for (ok v) = (output, v) ∷ []
  published_for (err x) = []

  abbrev for_message : Message → List (String × Value)
  for_message m =
      if upstream_output == m.topic
      then published_for (run_node node ((upstream, m.value) ∷ []))
      else []

  abbrev pub outputs : List (ℕ × Option Message) → List (String × Value)
  outputs [] = []
  outputs ((now, none) ∷ ms) = outputs ms
  outputs ((now, some m) ∷ ms) = for_message m ++ outputs ms

  module _ (R : Redis) (json : Json) (topics : Topics) (input : String)
      (registered : lookup upstream topics ≡ some (input, upstream_output))
      (one : node.definition.upstreams ≡ upstream ∷ []) where
    finish-published :
        (now : ℕ) (r : Result NodeError Value) (e : Effects R json topics)
        → (finish R json topics now node output r e).published ≡ e.published ++ published_for r
    finish-published now (ok v) e = refl
    finish-published now (err x) e = sym (append-nil e.published)

    inputs-eq :
        (m : Message)
        → inputs_of topics node.definition.upstreams m
          ≡ some (if upstream_output == m.topic then (upstream, m.value) ∷ [] else [])
    unfolding inputs_of
    inputs-eq m = rw one (ground arith)

    turn-eq :
        (now : ℕ) (m : Message) (e : Effects R json topics)
        → turn R json topics now node output (some m) e ≡ (
            if upstream_output == m.topic
            then finish R json topics now node output (run_node node ((upstream, m.value) ∷ [])) e
            else e)
    unfolding turn
    turn-eq now m e = ground (arith, inputs-eq m)

    turn-published :
        (now : ℕ) (m : Message) (e : Effects R json topics)
        → (turn R json topics now node output (some m) e).published ≡ e.published ++ for_message m
    turn-published now m e = elim (Bool-cases (upstream_output == m.topic)) [
      | inl hit ↦
          rw (turn-eq now m e, hit)
            (finish-published now (run_node node ((upstream, m.value) ∷ [])) e)
      | inr miss ↦ rw (turn-eq now m e, miss) (sym (append-nil e.published))
    ]

    turn-idle :
        (now : ℕ) (e : Effects R json topics) → turn R json topics now node output none e ≡ e
    unfolding turn
    turn-idle now e = rw one refl

    -- A node with one upstream runs once for each message on the output topic of that upstream, in their
    -- order, with the value under the upstream's name, and publishes what it returns; where it raises,
    -- nothing is published, and the later messages are handled as before.
    pub execute_node-published :
        (ms : List (ℕ × Option Message)) (e : Effects R json topics)
        → (execute_node R json topics node output ms e).published ≡ e.published ++ outputs ms
    unfolding execute_node
    execute_node-published [] e = sym (append-nil e.published)
    execute_node-published ((now, none) ∷ ms) e =
        rw (turn-idle now e, execute_node) (execute_node-published ms e)
    execute_node-published ((now, some m) ∷ ms) e =
        execute_node-published ms (turn R json topics now node output (some m) e)
        ∙ ap (λ out. out ++ outputs ms) (turn-published now m e)
        ∙ append_assoc e.published (for_message m) (outputs ms)
