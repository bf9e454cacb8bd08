-- ===== src/Sdk/Engine/Limit.antt =====
-- `execute_pipeline` with a time limit: when it gives up, and what the wrapped function is called with.
use qmtl.Base.{
  ℕ, zero, suc, ◌+◌, ◌<◌, String, List, [], ◌∷◌, ◌≡◌, ◌≢◌, refl, ◌∙◌, sym, ap, subst, Bool, true,
  false, Option, none, some, if◌then◌else◌, Dict, lookup, insert, length, Result, ok, err,
  Option-cases, Bool-cases, inl, inr, ◌⊎◌, arith,
}
use qmtl.Sdk.Value.{Value}
use qmtl.Sdk.Node.{
  Function, NodeError, validate_upstreams, build_args_single_upstream, build_fn_args, add_kwargs,
  call_function, is_empty, execute,
}
use qmtl.Sdk.Pipeline.{ProcessingNode}
use qmtl.Sdk.Engine.{
  Node, processing, EngineError, timed_out, key_error, out_of_fuel, unsorted, no_result,
  node_failed, Engine, Run, finished, raised, Clock, round_start, final_check, start, exceeds,
  expired_in_call, ◌then◌, execute_node, with_timeout, gather, prepare_node_inputs, store_result,
  take_input, compute, run_node, round, run_order,
}

-- With a time limit a node with one upstream passes the upstream's value to its function under the
-- name `kwargs`, whatever the parameters of the function are called.
pub execute_node-with_timeout :
    (limit : ℕ) (node : Node) (u : String) (v : Value) (kwargs : Dict Value) (fn : Function)
    (inputs : Dict Value)
    → node.definition.upstreams ≡ u ∷ []
    → node.body ≡ processing kwargs fn
    → lookup u inputs ≡ some v
    → execute_node (with_timeout (some (suc limit)) false) node inputs
      ≡ call_function fn (add_kwargs kwargs (("kwargs", v) ∷ []))
unfolding execute validate_upstreams build_fn_args build_args_single_upstream
execute_node-with_timeout limit node u v kwargs fn inputs single body there = ground arith

module _ (clock : Clock) (limit : ℕ) where
  abbrev pub is_late : ℕ → Bool
  is_late now = exceeds (some (suc limit)) (start clock (some (suc limit))) now

  gather-raises :
      (name : String) (us : List String) (results d : Dict Value)
      → gather name us results d ≡ err timed_out
      → ⊥
  unfolding gather
  gather-raises name [] results d h = ground arith
  gather-raises name (u ∷ us) results d h = elim (Option-cases (lookup u results)) [
    | inl e ↦ ground arith
    | inr (v, e) ↦ gather-raises name us results (insert u v d) (ground arith)
  ]

  prepare-raises :
      (n : ProcessingNode) (results : Dict Value)
      → prepare_node_inputs n results ≡ err timed_out
      → ⊥
  unfolding prepare_node_inputs
  prepare-raises n results h =
      elim (Option-cases (if is_empty n.upstreams then lookup n.name results else none)) [
        | inl e ↦ gather-raises n.name n.upstreams results [] (ground arith)
        | inr (v, e) ↦ ground arith
      ]

  abbrev timeout : Option ℕ
  timeout = some (suc limit)

  executed-late :
      (i : ℕ) (name : String) (node : Node) (e e' : Engine) (r : Result NodeError Value)
      → (elim r [
        | err x ↦ raised (node_failed name x) e
        | ok v ↦ store_result clock timeout i name node.definition v e
      ])
        ≡ raised timed_out e'
      → is_late (clock i final_check) ≡ true
  executed-late i name node e e' (err x) h = absurd (ground arith)
  executed-late i name node e e' (ok v) h = ground arith

  compute-late :
      (i : ℕ) (name : String) (node : Node) (e e' : Engine)
      → (given : Result EngineError (Dict Value))
      → prepare_node_inputs node.definition e.results ≡ given
      → compute clock timeout i name node e ≡ raised timed_out e'
      → is_late (clock i final_check) ≡ true
  unfolding compute
  compute-late i name node e e' (err x) p h =
      absurd (prepare-raises node.definition e.results (ground arith))
  compute-late i name node e e' (ok d) p h =
      executed-late i name node e e'
        (execute_node (with_timeout timeout (expired_in_call clock timeout i)) node d)
        (ground arith)

  take_input-late :
      (name : String) (given : Dict Value) (e e' : Engine)
      → take_input name given e ≡ raised timed_out e'
      → ⊥
  take_input-late name given e e' h = elim (Option-cases (lookup name given)) [
    | inl a ↦ ground arith
    | inr (v, a) ↦ ground arith
  ]

  run_node-late :
      (inputs : Option (Dict Value)) (i : ℕ) (name : String) (node : Node) (e e' : Engine)
      → run_node clock timeout inputs i name node e ≡ raised timed_out e'
      → is_late (clock i final_check) ≡ true
  unfolding run_node
  run_node-late none i name node e e' h =
      elim (Option-cases
        (if is_empty node.definition.upstreams then lookup name e.results else none)) [
          | inl a ↦ compute-late i name node e e' _ refl (ground arith)
          | inr (v, a) ↦ absurd (ground arith)
        ]
  run_node-late (some given) i name node e e' h =
      elim (Bool-cases (is_empty node.definition.upstreams)) [
        | inl leaf ↦ absurd (take_input-late name given e e' (ground arith))
        | inr other ↦ compute-late i name node e e' _ refl (ground arith)
      ]

  round-late :
      (nodes : Dict Node) (inputs : Option (Dict Value)) (i : ℕ) (name : String) (e e' : Engine)
      → round clock timeout nodes inputs i name e ≡ raised timed_out e'
      → (is_late (clock i round_start) ≡ true) ⊎ (is_late (clock i final_check) ≡ true)
  round-late nodes inputs i name e e' h = elim (Bool-cases (is_late (clock i round_start))) [
    | inl late ↦ inl late
    | inr early ↦ elim (Option-cases (lookup name nodes)) [
      | inl a ↦ absurd (ground arith)
      | inr (node, a) ↦ inr (run_node-late inputs i name node e e' (ground arith))
    ]
  ]

  Run-cases :
      (r : Run)
      → ((e : Engine) × (r ≡ finished e)) ⊎ ((x : EngineError) × (e : Engine) × (r ≡ raised x e))
  Run-cases (finished e) = inl (e, refl)
  Run-cases (raised x e) = inr (x, e, refl)

  round-early :
      (nodes : Dict Node) (inputs : Option (Dict Value)) (i : ℕ) (name : String) (e e' : Engine)
      → round clock timeout nodes inputs i name e ≡ finished e'
      → is_late (clock i round_start) ≡ false
  round-early nodes inputs i name e e' h = elim (Bool-cases (is_late (clock i round_start))) [
    | inl late ↦ absurd (ground arith)
    | inr early ↦ early
  ]

  shift :
      (i j n : ℕ)
      → is_late (clock i round_start) ≡ false
      → ((j : ℕ) → j < n → is_late (clock (suc i + j) round_start) ≡ false)
      → j < suc n
      → is_late (clock (i + j) round_start) ≡ false
  shift i zero n here later small =
      subst (λ k. is_late (clock k round_start) ≡ false) (omega arith) here
  shift i (suc j) n here later small =
      subst (λ k. is_late (clock k round_start) ≡ false) (omega arith) (later j (omega arith))

  finished-early :
      (nodes : Dict Node) (inputs : Option (Dict Value)) (i : ℕ) (order : List String)
      (e e' : Engine)
      → run_order clock timeout nodes inputs i order e ≡ finished e'
      → (j : ℕ) → j < length order
      → is_late (clock (i + j) round_start) ≡ false
  unfolding run_order
  finished-early nodes inputs i [] e e' h j small = absurd (omega arith)
  finished-early nodes inputs i (name ∷ order) e e' h j small =
      elim (Run-cases (round clock timeout nodes inputs i name e)) [
        | inr (x, e₁, run) ↦ absurd (ground arith)
        | inl (e₁, run) ↦
            let rest : run_order clock timeout nodes inputs (suc i) order e₁ ≡ finished e' =
              sym (ap (λ r. r then run_order clock timeout nodes inputs (suc i) order) run) ∙ h in
            shift i j (length order) (round-early nodes inputs i name e e₁ run)
              (finished-early nodes inputs (suc i) order e₁ e' rest) small
      ]

  raised-late :
      (nodes : Dict Node) (inputs : Option (Dict Value)) (i : ℕ) (order : List String)
      (e e' : Engine)
      → run_order clock timeout nodes inputs i order e ≡ raised timed_out e'
      → (j : ℕ) × (j < length order)
        × ((is_late (clock (i + j) round_start) ≡ true)
            ⊎ (is_late (clock (i + j) final_check) ≡ true))
  unfolding run_order
  raised-late nodes inputs i [] e e' h = absurd (ground arith)
  raised-late nodes inputs i (name ∷ order) e e' h =
      elim (Run-cases (round clock timeout nodes inputs i name e)) [
        | inr (x, e₁, run) ↦
            let here : raised x e₁ ≡ raised timed_out e' =
              sym (ap (λ r. r then run_order clock timeout nodes inputs (suc i) order) run) ∙ h in
            (
              0,
              omega arith,
              subst
                  (λ k.
                    (is_late (clock k round_start) ≡ true) ⊎ (is_late (clock k final_check) ≡ true))
                  (omega arith) (round-late nodes inputs i name e e' (run ∙ here)),
            )
        | inl (e₁, run) ↦
            let rest : run_order clock timeout nodes inputs (suc i) order e₁ ≡ raised timed_out e' =
              sym (ap (λ r. r then run_order clock timeout nodes inputs (suc i) order) run) ∙ h in
            let (j, small, late) = raised-late nodes inputs (suc i) order e₁ e' rest in
            (
              suc j,
              omega arith,
              subst
                  (λ k.
                    (is_late (clock k round_start) ≡ true) ⊎ (is_late (clock k final_check) ≡ true))
                  (omega arith) late,
            )
      ]

  timed_out-cases : (x : EngineError) → (x ≡ timed_out) ⊎ (x ≢ timed_out)
  timed_out-cases timed_out = inl refl
  timed_out-cases key_error = inr (λ h. ground arith)
  timed_out-cases out_of_fuel = inr (λ h. ground arith)
  timed_out-cases (unsorted x) = inr (λ h. ground arith)
  timed_out-cases (no_result n u) = inr (λ h. ground arith)
  timed_out-cases (node_failed n x) = inr (λ h. ground arith)

  -- With a time limit the loop finishes, having begun every round within the limit; or it gives up for
  -- lateness, and the clock was over the limit at the beginning of a round or after a call; or it
  -- raises another error.
  pub run_order_in_time :
      (nodes : Dict Node) (inputs : Option (Dict Value)) (i : ℕ) (order : List String) (e : Engine)
      → ((e' : Engine) × (run_order clock timeout nodes inputs i order e ≡ finished e')
          × ((j : ℕ) → j < length order → is_late (clock (i + j) round_start) ≡ false))
        ⊎ ((e' : Engine) × (run_order clock timeout nodes inputs i order e ≡ raised timed_out e')
            × (j : ℕ) × (j < length order)
            × ((is_late (clock (i + j) round_start) ≡ true)
                ⊎ (is_late (clock (i + j) final_check) ≡ true)))
        ⊎ ((x : EngineError) × (e' : Engine) × (run_order clock timeout nodes inputs i order e
              ≡ raised x e')
            × (x ≢ timed_out))
  run_order_in_time nodes inputs i order e =
      elim (Run-cases (run_order clock timeout nodes inputs i order e)) [
        | inl (e', run) ↦ inl (e', run, finished-early nodes inputs i order e e' run)
        | inr (x, e', run) ↦ elim (timed_out-cases x) [
          | inr other ↦ inr (inr (x, e', run, other))
          | inl late ↦
              let gave_up = run ∙ ap (λ y. raised y e') late in
              let (j, small, over) = raised-late nodes inputs i order e e' gave_up in
              inr (inl (e', gave_up, j, small, over))
        ]
      ]
