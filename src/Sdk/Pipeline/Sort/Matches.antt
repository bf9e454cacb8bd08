-- ===== src/Sdk/Pipeline/Sort/Matches.antt =====
-- The pipeline's nodes as the graph builder takes them, and the search on either side.
use qmtl.Base.{
  suc, String, List, [], ◌∷◌, ◌++◌, ◌≡◌, refl, ◌∙◌, sym, ap, subst, true, false, none, ◌==◌,
  contains, length, keys, Dict, lookup, insert, has_key-keys, arith, lookup-insert, if_true,
  if_false, eq_iff, eq_refl, Bool-cases, inl, inr, Nodup,
}
use qmtl.Core.Node.{DataNode, add_all, node_map_of}
use qmtl.Core.Graph.{no_marks, ids, sort_marks}
use qmtl.Sdk.Pipeline.{ProcessingNode}
use qmtl.Sdk.Pipeline.Sort.{all_unvisited, graph_of, unsorted, search}
use qmtl.Sdk.Pipeline.Sort.Same.{Same, Marked, Alike}
use qmtl.Sdk.Pipeline.Sort.Refines.{Lists, dfs_unvisited-Alike}

append-nil {ℓ} : {V : Type ℓ} (d : List V) → d ++ [] ≡ d
append-nil [] = refl
append-nil (x ∷ xs) = rw (append-nil xs)

insert-append {ℓ} :
    {V : Type ℓ} (k : String) (v : V) (d e : Dict V)
    → contains k (keys d) ≡ false
    → insert k v d ++ e ≡ d ++ (k, v) ∷ e
unfolding insert
insert-append k v [] e h = refl
insert-append k v ((j, w) ∷ d) e h = ground (arith, insert-append k v d e)

-- The pipeline's nodes as the graph builder takes them: the dependencies are the set of upstreams.
module _ (set_order : List String → List String) where
  abbrev pub as_nodes : Dict ProcessingNode → List DataNode
  as_nodes [] = []
  as_nodes ((name, n) ∷ d) =
      record { node_id = name; dependencies = set_order n.upstreams; payload = "" } ∷ as_nodes d

  abbrev pub data_of : Dict ProcessingNode → Dict DataNode
  data_of [] = []
  data_of ((name, n) ∷ d) =
      (name, record { node_id = name; dependencies = set_order n.upstreams; payload = "" })
      ∷ data_of d

  pub ids-as_nodes : (d : Dict ProcessingNode) → ids (as_nodes d) ≡ keys d
  ids-as_nodes [] = refl
  ids-as_nodes ((k, n) ∷ d) = ap (λ r. k ∷ r) (ids-as_nodes d)

  length-data_of : (d : Dict ProcessingNode) → length (data_of d) ≡ length d
  length-data_of [] = refl
  length-data_of ((k, n) ∷ d) = ap suc (length-data_of d)

  Lists-data_of : (d : Dict ProcessingNode) → Lists (data_of d) (graph_of set_order d)
  unfolding lookup
  Lists-data_of [] x = inl (refl, refl)
  Lists-data_of ((k, n) ∷ d) x = elim (Bool-cases (k == x)) [
    | inl e ↦ inr (
      record { node_id = k; dependencies = set_order n.upstreams; payload = "" },
      if_true _ _ _ e,
      if_true _ _ _ e,
    )
    | inr e ↦ elim (Lists-data_of d x) [
      | inl (a, b) ↦ inl (if_false _ _ _ e ∙ a, if_false _ _ _ e ∙ b)
      | inr (node, b, a) ↦ inr (node, if_false _ _ _ e ∙ b, if_false _ _ _ e ∙ a)
    ]
  ]

  all_unvisited-Marked :
      (ks : List String) (x : String) → Marked (lookup x (all_unvisited ks)) false false
  unfolding lookup
  all_unvisited-Marked [] x = (refl, refl)
  all_unvisited-Marked (k ∷ ks) x = elim (Bool-cases (k == x)) [
    | inl e ↦ subst (λ o. Marked o false false) (sym (if_true _ _ _ e)) (refl, refl)
    | inr e ↦ subst (λ o. Marked o false false) (sym (if_false _ _ _ e)) (all_unvisited-Marked ks x)
  ]

  missing_unvisited :
      (d : Dict ProcessingNode) (x : String)
      → lookup x (all_unvisited (keys d)) ≡ none
      → lookup x (data_of d) ≡ none
  unfolding lookup
  missing_unvisited [] x h = refl
  missing_unvisited ((k, n) ∷ d) x h = ground (arith, missing_unvisited d x)

  unsorted-Same : (d : Dict ProcessingNode) → Same (data_of d) (unsorted set_order d) no_marks
  unsorted-Same d = record {
    result = refl;
    marked = all_unvisited-Marked (keys d);
    keyed = missing_unvisited d;
  }

  add_all-data_of :
      (m : Dict DataNode) (d : Dict ProcessingNode)
      → Nodup (keys d)
      → ((x : String) → contains x (keys d) ≡ true → contains x (keys m) ≡ false)
      → add_all m (as_nodes d) ≡ m ++ data_of d
  add_all-data_of m [] u fresh = sym (append-nil m)
  add_all-data_of m ((k, n) ∷ d) u fresh =
      let node : DataNode = record {
        node_id = k;
        dependencies = set_order n.upstreams;
        payload = "";
      } in
      add_all-data_of (insert k node m) d u.1 (λ x h. ground (
        arith,
        fresh x,
        has_key-keys x m,
        has_key-keys x (insert k node m),
        lookup-insert k x node m,
        eq_iff k x,
      ))
      ∙ insert-append k node m (data_of d) (fresh k (ground (arith, eq_refl k)))

  pub node_map_of-data_of :
      (d : Dict ProcessingNode) → Nodup (keys d) → node_map_of (as_nodes d) ≡ data_of d
  unfolding node_map_of
  node_map_of-data_of d u = add_all-data_of [] d u (λ x h. refl)

  pub search-Alike :
      (d : Dict ProcessingNode)
      → Nodup (keys d)
      → Alike (data_of d) (search set_order d) (sort_marks (as_nodes d))
  unfolding search sort_marks
  search-Alike d u = rw (node_map_of-data_of d u) (
      rw (length-data_of d) (
        rw (ids-as_nodes d) (
          dfs_unvisited-Alike (data_of d) (graph_of set_order d) (length d) (keys d)
            (unsorted set_order d) no_marks (Lists-data_of d) refl (unsorted-Same d))))
