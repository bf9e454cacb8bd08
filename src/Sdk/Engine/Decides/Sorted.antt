-- ===== src/Sdk/Engine/Decides/Sorted.antt =====
-- `execute_pipeline` on a pipeline whose order has yet to be computed, without a time limit.
use qmtl.Base.{
  ◌≤◌, String, List, [], ◌∷◌, ◌≡◌, refl, ◌∙◌, sym, ap, subst, true, Option, none, some, ◌==◌,
  if◌then◌else◌, Dict, lookup, keys, contains, length, length-keys, or_else, Nodup, ok, err,
  Bool-cases, inl, inr, ◌⊎◌, arith, eq_iff, IsOrderedBy, IsOrderedBy-Nodup, length_le_of_subset,
}
use qmtl.Core.Node.{DataNode}
use qmtl.Core.Graph.Spec.{IsOrdered, Reaches}
use qmtl.Sdk.Value.{Value}
use qmtl.Sdk.Pipeline.{cyclic, unknown_upstream}
use qmtl.Sdk.Pipeline.Sort.Matches.{data_of}
use qmtl.Sdk.Pipeline.Sort.Validated.{IsUnknown}
use qmtl.Sdk.Pipeline.Sort.Decides.{topological_sort_decides}
use qmtl.Sdk.Engine.{
  Node, Pipeline, EngineError, unsorted, Engine, finished, raised, Clock, ◌then◌, definitions,
  run_order, trim_all, trimmed, ordered, execute_pipeline,
}
use qmtl.Sdk.Engine.Reference.{evaluate}
use qmtl.Sdk.Engine.Refines.{IsNamed, upstreams_of, Computed}
use qmtl.Sdk.Engine.Decides.{visited, contains-visited, length-visited, run_order_lem}

keys-definitions : (nodes : Dict Node) → keys (definitions nodes) ≡ keys nodes
keys-definitions [] = refl
keys-definitions ((k, n) ∷ nodes) = ap (λ r. k ∷ r) (keys-definitions nodes)

module _ (set_order : List String → List String)
    (same_set : (xs : List String) (y : String) → contains y (set_order xs) ≡ contains y xs)
    (clock : Clock) where
  data_of_lem :
      (nodes : Dict Node) (x : String) (d : DataNode)
      → lookup x (data_of set_order (definitions nodes)) ≡ some d
      → (contains x (keys nodes) ≡ true) × (d.dependencies ≡ set_order (upstreams_of nodes x))
  unfolding lookup
  data_of_lem [] x d h = absurd (ground arith)
  data_of_lem ((k, n) ∷ nodes) x d h = elim (Bool-cases (k == x)) [
    | inl e ↦ (ground arith, ground arith)
    | inr e ↦ let (a, b) = data_of_lem nodes x d (ground arith) in (ground arith, ground arith)
  ]

  IsOrdered-IsOrderedBy :
      (nodes : Dict Node) (seen order : List String)
      → IsOrdered (data_of set_order (definitions nodes)) seen order
      → IsOrderedBy (upstreams_of nodes) seen order
        × ((x : String) → contains x order ≡ true → contains x (keys nodes) ≡ true)
  IsOrdered-IsOrderedBy nodes seen [] o = (tt, λ x h. absurd (ground arith))
  IsOrdered-IsOrderedBy nodes seen (x ∷ order) o =
      let first = o.0 in
      let (known, deps) = data_of_lem nodes x first.node first.stored in
      let (later, members) = IsOrdered-IsOrderedBy nodes (x ∷ seen) order o.1 in
      (
        (
          record {
            is_new = first.is_new;
            upstreams_seen = λ u given.
                first.deps_seen u
                  (ap (contains u) deps ∙ same_set (upstreams_of nodes x) u ∙ given);
          },
          later,
        ),
        λ y given. ground (arith, members y, eq_iff x y),
      )

  start-Computed :
      (nodes : Dict Node) (inputs : Option (Dict Value)) (e : Engine)
      → e.results ≡ or_else [] inputs
      → Computed clock nodes inputs [] e
  start-Computed nodes inputs e h = record {
    values = λ depth enough x given. absurd (ground arith);
    others = λ x new. ap (lookup x) h;
  }

  -- `execute_pipeline` on a pipeline with distinct nodes, each stored under its name, for which no
  -- order has been computed, without a time limit: either it returns, and for every node the results
  -- hold exactly what recursion over the upstreams gives, whatever the order was; or a node raises,
  -- with the error that the recursion gives for it; or the sort refuses the pipeline, because a node
  -- reaches itself by its upstreams or because an upstream is no node.
  pub execute_pipeline_decides :
      (p : Pipeline) (inputs : Option (Dict Value)) (e : Engine)
      → p.execution_order ≡ []
      → Nodup (keys p.nodes)
      → IsNamed p.nodes
      → ((e' : Engine) × (p' : Pipeline) × (execute_pipeline set_order clock none inputs p e
            ≡ (finished e', p'))
          × ((x : String)
              → contains x (keys p.nodes) ≡ true
              → evaluate p.nodes inputs (length p.nodes) x ≡ ok (lookup x e'.results)))
        ⊎ ((x : EngineError) × (e' : Engine) × (p' : Pipeline) × (execute_pipeline set_order clock
                none inputs p e
              ≡ (raised x e', p'))
            × (name : String) × (contains name (keys p.nodes) ≡ true)
            × (evaluate p.nodes inputs (length p.nodes) name ≡ err x))
        ⊎ ((x : String) × (execute_pipeline set_order clock none inputs p e
              ≡ (raised (unsorted (cyclic x)) e, p))
            × ((y : String) × Reaches (data_of set_order (definitions p.nodes)) y y))
        ⊎ ((name u : String) × (execute_pipeline set_order clock none inputs p e
              ≡ (raised (unsorted (unknown_upstream name u)) e, p))
            × IsUnknown (definitions p.nodes) name u)
  unfolding execute_pipeline ordered
  execute_pipeline_decides p inputs e fresh distinct named =
      elim (topological_sort_decides set_order same_set (definitions p.nodes)
        (subst Nodup (sym (keys-definitions p.nodes)) distinct)) [
          | inr (inl (x, refused, loop)) ↦ inr (inr (inl (x, ground arith, loop)))
          | inr (inr (name, u, refused, unknown)) ↦ inr (inr (inr (name, u, ground arith, unknown)))
          | inl (order, sorted, o, all) ↦
              let (ordered_by, members) = IsOrdered-IsOrderedBy p.nodes [] order o in
              let p' : Pipeline = record p { execution_order = order } in
              let e₀ : Engine = record e { results = or_else [] inputs } in
              let run : execute_pipeline set_order clock none inputs p e
                  ≡ (run_order clock none p.nodes inputs 0 order e₀ then trimmed p.nodes, p') =
                ground (arith, sorted, fresh) in
              let fits : length (visited order []) ≤ length p.nodes = omega (
                arith,
                length-visited order [],
                length-keys p.nodes,
                length_le_of_subset order (keys p.nodes) (IsOrderedBy-Nodup _ [] order ordered_by)
                    members,
              ) in
              elim (run_order_lem clock p.nodes inputs named 0 order [] e₀ ordered_by
                (start-Computed p.nodes inputs e₀ refl)) [
                  | inl (e', done, c) ↦ inl (
                    record e' { store = trim_all p.nodes e'.store },
                    p',
                    run ∙ ap (λ r. (r then trimmed p.nodes, p')) done,
                    λ x given. c.values (length p.nodes) fits x (
                        ground (
                          arith,
                          contains-visited x order [],
                          all x (ap (contains x) (keys-definitions p.nodes) ∙ given),
                        )),
                  )
                  | inr (x, e', failed, name, there, h) ↦ inr (
                      inl (
                        x,
                        e',
                        p',
                        run ∙ ap (λ r. (r then trimmed p.nodes, p')) failed,
                        name,
                        members name there,
                        h (length p.nodes) fits,
                      ))
                ]
        ]
