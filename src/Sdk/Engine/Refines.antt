-- ===== src/Sdk/Engine/Refines.antt =====
-- A round of the loop, for a node that comes after its upstreams, gives the value of the reference.
use qmtl.Base.{
  ℕ, suc, ◌≤◌, String, List, [], ◌∷◌, ◌≡◌, refl, ◌∙◌, sym, ap, true, false, Option, none, some,
  ◌==◌, if◌then◌else◌, if_true, if_false, subst, Dict, lookup, lookup-insert, insert, contains,
  length, or_else, Result, ok, err, ◌>>=◌, Option-cases, Bool-cases, inl, inr, ◌⊎◌, arith, eq_refl,
  Follows,
}
use qmtl.Sdk.Value.{Value}
use qmtl.Sdk.Node.{NodeError, is_empty}
use qmtl.Sdk.Engine.{
  Node, EngineError, key_error, node_failed, Engine, Run, finished, raised, Clock, ◌then◌,
  execute_node, gather, prepare_node_inputs, set_result, take_input, store_result, compute,
  run_node, round,
}
use qmtl.Sdk.Engine.Reference.{Evaluation, gather_from, apply_node, evaluate_node, evaluate}

-- The upstreams of a node of the pipeline.
abbrev pub upstreams_of : Dict Node → String → List String
upstreams_of nodes x = elim (lookup x nodes) [ none ↦ [] | some n ↦ n.definition.upstreams ]

-- Nodes are stored under their names.
abbrev pub IsNamed : Dict Node → Type 0
IsNamed nodes = (x : String) (n : Node) → lookup x nodes ≡ some n → n.definition.name ≡ x

pub gather_lem :
    (value_of : String → Evaluation) (results : Dict Value) (name : String) (us : List String)
    (d : Dict Value)
    → ((u : String) → contains u us ≡ true → value_of u ≡ ok (lookup u results))
    → gather_from value_of name us d ≡ gather name us results d
unfolding gather gather_from
gather_lem value_of results name [] d h = refl
gather_lem value_of results name (u ∷ us) d h =
    let here = h u (ground (arith, eq_refl u)) in
    let there : (v : Value)
        → gather_from value_of name us (insert u v d) ≡ gather name us results (insert u v d) =
      λ v. gather_lem value_of results name us (insert u v d) (λ w given. h w (ground arith)) in
    elim (Option-cases (lookup u results)) [
      | inl absent ↦ ground arith
      | inr (v, stored) ↦ ground (arith, there v)
    ]

-- The engine after a round has the value of the node, and the other results as before.
pub record Adds (name : String) (value : Evaluation) (e e' : Engine) : Type 0 where
  pub own : value ≡ ok (lookup name e'.results)
  pub others : (y : String) → (name == y) ≡ false → lookup y e'.results ≡ lookup y e.results

-- A round adds the value, or raises what the reference raises.
abbrev pub Follow : (name : String) → Evaluation → Engine → Run → Type 0
Follow name value e run =
    ((e' : Engine) × (run ≡ finished e') × Adds name value e e')
    ⊎ ((x : EngineError) × (run ≡ raised x e) × (value ≡ err x))

insert-Adds :
    (name : String) (value : Evaluation) (v : Value) (e e' : Engine)
    → value ≡ ok (some v)
    → e'.results ≡ insert name v e.results
    → Adds name value e e'
insert-Adds name value v e e' h same = record {
  own = ground (arith, lookup-insert name name v e.results, eq_refl name);
  others = λ y other. ground (arith, lookup-insert name y v e.results);
}

module _ (clock : Clock) (name : String) (node : Node) (e : Engine) where
  stored :
      (i : ℕ) (v : Value)
      → (e' : Engine) × (store_result clock none i name node.definition v e ≡ finished e')
        × (e'.results ≡ insert name v e.results)
  stored i v = (_, refl, refl)

  executed :
      (i : ℕ) (d : Dict Value)
      → prepare_node_inputs node.definition e.results ≡ ok d
      → (r : Result NodeError Value) → execute_node (λ fn. fn) node d ≡ r
      → Follow name (apply_node name node d) e (compute clock none i name node e)
  unfolding compute
  executed i d h (err x) f = inr (node_failed name x, ground arith, ground arith)
  executed i d h (ok v) f =
      let (e', run, same) = stored i v in
      inl (
        e',
        ground (arith, run),
        insert-Adds name (apply_node name node d) v e e' (ground arith) same,
      )

  compute_lem :
      (i : ℕ) (given : Result EngineError (Dict Value))
      → prepare_node_inputs node.definition e.results ≡ given
      → Follow name (given >>= apply_node name node) e (compute clock none i name node e)
  unfolding compute
  compute_lem i (err x) h = inr (x, ground arith, refl)
  compute_lem i (ok d) h = executed i d h (execute_node (λ fn. fn) node d) refl

  -- The source returns before the call where the node has no upstreams and there are inputs.
  take_input_lem :
      (i : ℕ) (given : Dict Value)
      → lookup name e.results ≡ lookup name given
      → Follow name (ok (lookup name given)) e (take_input name given e)
  take_input_lem i given same = elim (Option-cases (lookup name given)) [
    | inl absent ↦ inl (e, ground arith, record { own = ground arith; others = λ y other. refl })
    | inr (v, there) ↦ inl (
      set_result name v e,
      ground arith,
      insert-Adds name (ok (lookup name given)) v e (set_result name v e) (ground arith) refl,
    )
  ]

  -- The inputs of the node, where its name is not among the results of a node without upstreams.
  prepare_lem :
      (value_of : String → Evaluation)
      → node.definition.name ≡ name
      → (is_empty node.definition.upstreams ≡ true → lookup name e.results ≡ none)
      → ((u : String)
          → contains u node.definition.upstreams ≡ true
          → value_of u ≡ ok (lookup u e.results))
      → prepare_node_inputs node.definition e.results
        ≡ gather_from value_of name node.definition.upstreams []
  unfolding prepare_node_inputs
  prepare_lem value_of named new h =
      let ups = node.definition.upstreams in
      let none_kept : (if is_empty ups then lookup node.definition.name e.results else none)
          ≡ none =
        elim (Bool-cases (is_empty ups)) [
          | inl leaf ↦ if_true _ _ _ leaf ∙ ap (λ n. lookup n e.results) named ∙ new leaf
          | inr other ↦ if_false _ _ _ other
        ] in
      ground (
        arith,
        none_kept,
        gather_lem value_of e.results name ups [] h,
        ap (λ n. gather n ups e.results []) named,
      )

  -- A node that is not a given input is computed.
  computed_lem :
      (value_of : String → Evaluation) (i : ℕ)
      → node.definition.name ≡ name
      → (is_empty node.definition.upstreams ≡ true → lookup name e.results ≡ none)
      → ((u : String)
          → contains u node.definition.upstreams ≡ true
          → value_of u ≡ ok (lookup u e.results))
      → Follow name
          (gather_from value_of name node.definition.upstreams [] >>= apply_node name node)
          e
          (compute clock none i name node e)
  computed_lem value_of i named new h =
      compute_lem i (gather_from value_of name node.definition.upstreams [])
        (prepare_lem value_of named new h)

  pub run_node_lem :
      (value_of : String → Evaluation) (inputs : Option (Dict Value)) (i : ℕ)
      → node.definition.name ≡ name
      → lookup name e.results ≡ lookup name (or_else [] inputs)
      → ((u : String)
          → contains u node.definition.upstreams ≡ true
          → value_of u ≡ ok (lookup u e.results))
      → Follow name
          (evaluate_node value_of inputs name node)
          e
          (run_node clock none inputs i name node e)
  unfolding run_node lookup
  run_node_lem value_of none i named new h =
      let nothing : (if is_empty node.definition.upstreams then lookup name e.results else none)
          ≡ none =
        elim (Bool-cases (is_empty node.definition.upstreams)) [
          | inl leaf ↦ if_true _ _ _ leaf ∙ new
          | inr other ↦ if_false _ _ _ other
        ] in
      let run : run_node clock none none i name node e ≡ compute clock none i name node e =
        ground (arith, nothing) in
      subst (Follow name _ e) (sym run) (computed_lem value_of i named (λ leaf. new) h)
  run_node_lem value_of (some given) i named new h =
      elim (Bool-cases (is_empty node.definition.upstreams)) [
        | inl leaf ↦ rw leaf (take_input_lem i given new)
        | inr other ↦ rw other (computed_lem value_of i named (λ leaf. absurd (ground arith)) h)
      ]

module _ (clock : Clock) (nodes : Dict Node) (inputs : Option (Dict Value)) where
  -- What holds after the rounds of the names `seen`.
  pub record Computed (seen : List String) (e : Engine) : Type 0 where
    pub values :
        (depth : ℕ)
        → length seen ≤ depth
        → (x : String) → contains x seen ≡ true
        → evaluate nodes inputs depth x ≡ ok (lookup x e.results)
    pub others :
        (x : String) → contains x seen ≡ false → lookup x e.results ≡ lookup x (or_else [] inputs)

  pub round_lem :
      (i depth : ℕ) (name : String) (seen : List String) (e : Engine)
      → IsNamed nodes
      → Follows (upstreams_of nodes) seen name
      → Computed seen e
      → length seen ≤ depth
      → Follow name
          (evaluate nodes inputs (suc depth) name)
          e
          (round clock none nodes inputs i name e)
  unfolding evaluate
  round_lem i depth name seen e named f c enough = elim (Option-cases (lookup name nodes)) [
    | inl absent ↦ inr (key_error, ground arith, ground arith)
    | inr (node, there) ↦
        let value : evaluate nodes inputs (suc depth) name
            ≡ evaluate_node (evaluate nodes inputs depth) inputs name node =
          ground (arith, there) in
        let run : round clock none nodes inputs i name e
            ≡ run_node clock none inputs i name node e =
          ground (arith, there) in
        let listed : upstreams_of nodes name ≡ node.definition.upstreams = ground (arith, there) in
        subst (λ v. Follow name v e (round clock none nodes inputs i name e)) (sym value)
          (subst (Follow name _ e) (sym run) (
            run_node_lem clock name node e (evaluate nodes inputs depth) inputs i
              (named name node there) (c.others name f.is_new)
              (λ u given.
                c.values depth enough u (f.upstreams_seen u (ap (contains u) listed ∙ given)))))
  ]
