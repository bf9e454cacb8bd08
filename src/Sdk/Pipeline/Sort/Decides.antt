-- ===== src/Sdk/Pipeline/Sort/Decides.antt =====
-- The execution order of a pipeline is the order of the graph builder on the same graph.
use qmtl.Base.{
  String, List, [], ◌∷◌, ◌≡◌, refl, ◌∙◌, sym, ap, subst, true, some, ◌==◌, contains, keys, Dict,
  lookup, has_key, Result, ok, err, ◌>>=◌, arith, if_true, if_false, Bool-cases, inl, inr, ◌⊎◌,
  Nodup,
}
use qmtl.Core.Node.{DataNode}
use qmtl.Core.Graph.{Marks, SortError, cycle, sort_marks, get_topological_sort_result}
use qmtl.Core.Graph.Spec.{IsOrdered, Reaches}
use qmtl.Core.Graph.Order.{get_topological_sort_result-IsOrdered}
use qmtl.Core.Graph.Total.{IsClosed, get_topological_sort_result_decides}
use qmtl.Sdk.Pipeline.{
  ProcessingNode, PipelineError, duplicate, no_intervals, no_period, no_interval, attribute_error,
  unknown_upstream, cyclic, key_error, out_of_fuel,
}
use qmtl.Sdk.Pipeline.Sort.{Dfs, check_all, validate_dependencies, search, topological_sort}
use qmtl.Sdk.Pipeline.Sort.Same.{Alike}
use qmtl.Sdk.Pipeline.Sort.Matches.{
  as_nodes, data_of, ids-as_nodes, node_map_of-data_of, search-Alike,
}
use qmtl.Sdk.Pipeline.Sort.Validated.{IsUnknown, check_all_cases}

Alike-ok :
    (m : Dict DataNode) (a : Result PipelineError Dfs) (b : Result SortError Marks)
    (order : List String)
    → Alike m a b
    → (b >>= λ t. ok t.order) ≡ ok order
    → (a >>= λ s. ok s.result) ≡ ok order
Alike-ok m (ok s) (ok t) order i h =
    let same : t.order ≡ order = ground arith in ap ok (i.result ∙ same)
Alike-ok m (ok s) (err e) order i h = absurd i
Alike-ok m (err e) (ok t) order i h = absurd i
Alike-ok m (err e) (err e') order i h = absurd (ground arith)

Alike-cycle :
    (m : Dict DataNode) (a : Result PipelineError Dfs) (b : Result SortError Marks)
    → Alike m a b
    → (b >>= λ t. ok t.order) ≡ err cycle
    → (x : String) × ((a >>= λ s. ok s.result) ≡ err (cyclic x))
Alike-cycle m (ok s) (ok t) i h = absurd (ground arith)
Alike-cycle m (ok s) (err e) i h = absurd i
Alike-cycle m (err e) (ok t) i h = absurd i
Alike-cycle m (err (cyclic x)) (err e') i h = (x, refl)
Alike-cycle m (err key_error) (err e') i h = absurd (ground arith)
Alike-cycle m (err out_of_fuel) (err e') i h = absurd (ground arith)
Alike-cycle m (err (unknown_upstream n u)) (err e') i h = absurd i
Alike-cycle m (err duplicate) (err e') i h = absurd i
Alike-cycle m (err no_intervals) (err e') i h = absurd i
Alike-cycle m (err no_period) (err e') i h = absurd i
Alike-cycle m (err no_interval) (err e') i h = absurd i
Alike-cycle m (err attribute_error) (err e') i h = absurd i

module _ (set_order : List String → List String)
    (members : (xs : List String) (y : String) → contains y (set_order xs) ≡ contains y xs) where
  stored_data :
      (d : Dict ProcessingNode) (x : String) (n : DataNode)
      → lookup x (data_of set_order d) ≡ some n
      → (p : ProcessingNode) × (lookup x d ≡ some p) × (n.dependencies ≡ set_order p.upstreams)
  unfolding lookup
  stored_data [] x n h = absurd (ground arith)
  stored_data ((k, p) ∷ d) x n h = elim (Bool-cases (k == x)) [
    | inl e ↦
        let same : some _ ≡ some n = sym (if_true _ _ _ e) ∙ h in (p, if_true _ _ _ e, ground arith)
    | inr e ↦
        let (p', l, deps) = stored_data d x n (sym (if_false _ _ _ e) ∙ h) in
        (p', if_false _ _ _ e ∙ l, deps)
  ]

  has_key-data_of :
      (d : Dict ProcessingNode) (y : String) → has_key y (data_of set_order d) ≡ has_key y d
  unfolding lookup
  has_key-data_of [] y = refl
  has_key-data_of ((k, p) ∷ d) y = ground (arith, has_key-data_of d y)

  data_of-IsClosed :
      (d : Dict ProcessingNode)
      → ((name : String) (n : ProcessingNode) (u : String)
          → lookup name d ≡ some n
          → contains u n.upstreams ≡ true
          → has_key u d ≡ true)
      → IsClosed (data_of set_order d)
  data_of-IsClosed d valid x y edge =
      let (p, l, deps) = stored_data d x edge.node edge.stored in
      has_key-data_of d y
      ∙ valid x p y l (sym (members p.upstreams y) ∙ sym (ap (contains y) deps) ∙ edge.listed)

  validated :
      (d : Dict ProcessingNode)
      → check_all d d ≡ ok d
      → topological_sort set_order d ≡ (search set_order d >>= λ s. ok s.result)
  unfolding topological_sort validate_dependencies
  validated d h = ap (λ r. r >>= λ same. search set_order d >>= λ s. ok s.result) h

  refused :
      (d : Dict ProcessingNode) (e : PipelineError)
      → check_all d d ≡ err e
      → topological_sort set_order d ≡ err e
  unfolding topological_sort validate_dependencies
  refused d e h = ap (λ r. r >>= λ same. search set_order d >>= λ s. ok s.result) h

  builder_lem :
      (d : Dict ProcessingNode)
      → get_topological_sort_result (as_nodes set_order d)
        ≡ (sort_marks (as_nodes set_order d) >>= λ t. ok t.order)
  unfolding get_topological_sort_result
  builder_lem d = refl

  -- The sort of a pipeline with distinct names decides: it returns an order in which each node of the
  -- pipeline comes after its upstreams; or it raises the cycle error, and a node reaches itself by its
  -- upstreams; or it names an upstream that is no node of the pipeline. No other error occurs.
  pub topological_sort_decides :
      (d : Dict ProcessingNode)
      → Nodup (keys d)
      → ((order : List String) × (topological_sort set_order d ≡ ok order)
          × IsOrdered (data_of set_order d) [] order
          × ((x : String) → contains x (keys d) ≡ true → contains x order ≡ true))
        ⊎ ((x : String) × (topological_sort set_order d ≡ err (cyclic x))
            × ((y : String) × Reaches (data_of set_order d) y y))
        ⊎ ((name : String) × (u : String) × (topological_sort set_order d
              ≡ err (unknown_upstream name u))
            × IsUnknown d name u)
  topological_sort_decides d distinct =
      let nodes = as_nodes set_order d in
      let m = data_of set_order d in
      let same = node_map_of-data_of set_order d distinct in
      let alike = search-Alike set_order d distinct in
      elim (check_all_cases d d distinct) [
        | inr (name, u, n, h, l, c, a) ↦ inr (
            inr (
              name,
              u,
              refused d (unknown_upstream name u) h,
              record { node = n; stored = l; listed = c; absent = a },
            ))
        | inl (h, valid) ↦
            elim (get_topological_sort_result_decides nodes
              (subst IsClosed (sym same) (data_of-IsClosed d valid))) [
                | inl (order, e, acyclic) ↦
                    let (ordered, has) = get_topological_sort_result-IsOrdered nodes order e in
                    inl (
                      order,
                      validated d h
                          ∙ Alike-ok m (search set_order d) (sort_marks nodes) order alike
                              (sym (builder_lem d) ∙ e),
                      subst (λ k. IsOrdered k [] order) same ordered,
                      λ x given. has x (ap (contains x) (ids-as_nodes set_order d) ∙ given),
                    )
                | inr (e, (y, loop)) ↦
                    let (x, raised) =
                      Alike-cycle m (search set_order d) (sort_marks nodes) alike
                        (sym (builder_lem d) ∙ e) in
                    inr (inl (x, validated d h ∙ raised, (y, subst (λ k. Reaches k y y) same loop)))
              ]
      ]
