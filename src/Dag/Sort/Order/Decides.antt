-- ===== src/Dag/Sort/Order/Decides.antt =====
-- `get_topological_order` decides.
use qmtl.Base.{
  IsOrderedBy-same, IsOrderedBy-Nodup, IsOrderedBy, length_le_of_subset, String, List, [], ◌∷◌, ◌≡◌,
  ◌∙◌, ap, true, false, keys, contains, length, arith, eq_refl, eq_iff, nat_eq, if_true, if_false,
  ok, err, ◌>>=◌, Bool-cases, inl, inr, ◌⊎◌,
}
use qmtl.Dag.{DagService, at}
use qmtl.Dag.Verify.{cyclic, verify_acyclic}
use qmtl.Dag.Verify.Paths.{Reaches, Reaches-same}
use qmtl.Dag.Verify.Decides.{IsVerified, verify_acyclic_decides}
use qmtl.Dag.Sort.{sort_verified, get_topological_order}
use qmtl.Dag.Sort.Order.{IsConsistent, sort_verified_lem}
use qmtl.Dag.Sort.Order.Stuck.{left_out-cycle}

-- The upstreams of a node are nodes.
abbrev pub IsClosed : DagService → Type 0
IsClosed g =
    (x u : String)
    → contains x (keys g.nodes) ≡ true
    → contains u (at x g.reverse_adjacency_list) ≡ true
    → contains u (keys g.nodes) ≡ true

-- An order of exactly the nodes, each once and after its upstreams.
pub record IsOrderOf (g : DagService) (order : List String) : Type 0 where
  pub ordered : IsOrderedBy (λ v. at v g.reverse_adjacency_list) [] order
  pub all_nodes : (x : String) → contains x order ≡ contains x (keys g.nodes)

-- The first name of a list that is not in another, if there is one.
left_out :
    (ks order : List String)
    → ((x : String) → contains x ks ≡ true → contains x order ≡ true)
      ⊎ ((x : String) × (contains x ks ≡ true) × (contains x order ≡ false))
left_out [] order = inl (λ x h. absurd (ground arith))
left_out (k ∷ ks) order = elim (Bool-cases (contains k order)) [
  | inr out ↦ inr (k, ground (arith, eq_refl k), out)
  | inl there ↦ elim (left_out ks order) [
    | inl all ↦ inl (λ x h. ground (arith, all x, eq_iff k x))
    | inr (x, h, out) ↦ inr (x, ground arith, out)
  ]
]

-- The cycle test leaves the graph as it was, to its readers.
IsVerified-IsConsistent : (g g' : DagService) → IsVerified g g' → IsConsistent g → IsConsistent g'
IsVerified-IsConsistent g g' v i = record {
  once = rw v.nodes i.once;
  mirrored = λ c x. rw v.adjacency (rw (v.reads x) (i.mirrored c x));
  downstream_nodes = λ x y. rw v.adjacency (rw v.nodes (i.downstream_nodes x y));
}

IsVerified-IsClosed : (g g' : DagService) → IsVerified g g' → IsClosed g → IsClosed g'
IsVerified-IsClosed g g' v closed = λ x u. rw v.nodes (rw (v.reads x) (closed x u))

sort_verified_decides :
    (g : DagService)
    → IsConsistent g
    → IsClosed g
    → ((order : List String) × (g' : DagService) × (sort_verified g ≡ ok (order, g'))
        × IsOrderOf g order)
      ⊎ ((y : String) × (contains y (keys g.nodes) ≡ true) × Reaches g.reverse_adjacency_list y y)
sort_verified_decides g i closed =
    let (t, g₁, run, same, stopped) = sort_verified_lem g i in
    let c = stopped.counts in
    let ks = keys g.nodes in
    let inside : (x : String) → contains x t.order ≡ true → contains x ks ≡ true =
      λ x h. c.entered_node x (ground arith) in
    elim (left_out ks t.order) [
      | inr (x, node, out) ↦ inr (left_out-cycle g i t stopped closed x node out)
      | inl all ↦
          let members : (x : String) → contains x t.order ≡ contains x ks =
            λ x. ground (arith, all x, inside x) in
          let le =
            length_le_of_subset t.order ks (IsOrderedBy-Nodup _ [] t.order c.ordered) inside in
          let ge = length_le_of_subset ks t.order i.once all in
          let full : length t.order ≡ length ks = omega arith in
          let complete : nat_eq (length t.order) (length (keys g₁.nodes)) ≡ true =
            ap (λ ns. nat_eq (length t.order) (length (keys ns))) same ∙ ground arith in
          inl (
            t.order,
            record g₁ { adjacency_list = t.downstreams },
            run ∙ if_true _ _ _ complete,
            record { ordered = c.ordered; all_nodes = members },
          )
    ]

-- For a graph that has not been tested, whose maps mirror each other and whose upstreams are nodes:
-- either an order of exactly the nodes is returned, in which each node comes once and after all of its
-- upstreams; or the cyclic error names a node that reaches itself by its upstreams.
pub get_topological_order_decides :
    (g : DagService)
    → IsConsistent g
    → IsClosed g
    → g.verified ≡ false
    → ((order : List String) × (g' : DagService) × (get_topological_order g ≡ ok (order, g'))
        × IsOrderOf g order)
      ⊎ ((x : String) × (get_topological_order g ≡ err (cyclic x))
          × Reaches g.reverse_adjacency_list x x)
unfolding get_topological_order
get_topological_order_decides g i closed untested =
    let skip = if_false _ (sort_verified g) (verify_acyclic g >>= sort_verified) untested in
    elim (verify_acyclic_decides g) [
      | inr (x, raised, loop) ↦ inr (x, skip ∙ ap (λ r. r >>= sort_verified) raised, loop)
      | inl (g₁, passed, v) ↦
          let sorting = skip ∙ ap (λ r. r >>= sort_verified) passed in
          elim (sort_verified_decides g₁ (IsVerified-IsConsistent g g₁ v i)
            (IsVerified-IsClosed g g₁ v closed)) [
              | inl (order, g', run, o) ↦ inl (
                order,
                g',
                sorting ∙ run,
                record {
                  ordered = IsOrderedBy-same _ _ [] order v.reads o.ordered;
                  all_nodes = λ x. o.all_nodes x ∙ ap (λ ns. contains x (keys ns)) v.nodes;
                },
              )
              | inr (y, node, loop) ↦
                  absurd (v.acyclic y (rw (← v.nodes) node) (Reaches-same v.reads loop))
            ]
    ]
