-- ===== src/Dag/Sort/Order/Stuck.antt =====
-- If Kahn's loop stops before all nodes are in the order, then there is a cycle among the rest.
use qmtl.Base.{
  length_le_of_subset, ℕ, zero, suc, ◌+◌, ◌<◌, String, List, [], ◌∷◌, ◌≡◌, ◌≢◌, refl, subst, sym,
  true, false, ◌==◌, keys, contains, length, arith, eq_iff, eq_refl, Nodup, Bool-cases, inl, inr,
  ◌⊎◌, ap,
}
use qmtl.Dag.{DagService, at}
use qmtl.Dag.Verify.Paths.{Reaches, one, more, Lists}
use qmtl.Dag.Sort.{Kahn}
use qmtl.Dag.Sort.Remaining.{remaining}
use qmtl.Dag.Sort.Order.{IsConsistent, Stops}

some_remaining :
    (us order : List String)
    → remaining us order ≢ zero
    → (u : String) × (contains u us ≡ true) × (contains u order ≡ false)
some_remaining [] order h = absurd (h refl)
some_remaining (u ∷ us) order h = elim (Bool-cases (contains u order)) [
  | inr left ↦ (u, ground (arith, eq_refl u), left)
  | inl done ↦
      let (v, listed, left) = some_remaining us order (λ e. h (ground arith)) in
      (v, ground arith, left)
]

module _ (g : DagService) (i : IsConsistent g) (t : Kahn) (stopped : Stops g i t)
    (upstream_nodes : (x u : String)
      → contains x (keys g.nodes) ≡ true
      → contains u (at x g.reverse_adjacency_list) ≡ true
      → contains u (keys g.nodes) ≡ true) where
  -- A node outside the order has an upstream outside the order.
  next_left :
      (x : String)
      → contains x (keys g.nodes) ≡ true
      → contains x t.order ≡ false
      → (u : String) × Lists g.reverse_adjacency_list x u
        × (contains u (keys g.nodes) ≡ true)
        × (contains u t.order ≡ false)
  next_left x node left =
      let c = stopped.counts in
      let (u, listed, out) =
        some_remaining (at x g.reverse_adjacency_list) t.order
          (λ e. ground (arith, c.enters x node, ap (contains x) stopped.empty)) in
      (u, listed, upstream_nodes x u node listed, out)

  -- `path` is the way walked so far, from upstream to upstream.
  walk_back :
      (fuel : ℕ) (x : String) (path : List String)
      → contains x (keys g.nodes) ≡ true
      → contains x t.order ≡ false
      → Nodup path
      → ((p : String) → contains p path ≡ true → contains p (keys g.nodes) ≡ true)
      → ((p : String) → contains p path ≡ true → (p ≡ x) ⊎ Reaches g.reverse_adjacency_list p x)
      → length (keys g.nodes) < fuel + length path
      → (y : String) × (contains y (keys g.nodes) ≡ true) × Reaches g.reverse_adjacency_list y y
  walk_back zero x path node left once nodes way room =
      absurd (omega (arith, length_le_of_subset path (keys g.nodes) once nodes))
  walk_back (suc fuel) x path node left once nodes way room =
      let (u, edge, u_node, u_left) = next_left x node left in
      elim (Bool-cases (contains u path)) [
        | inl met ↦ elim (way u met) [
          | inl here ↦
              (u, u_node, subst (λ k. Reaches g.reverse_adjacency_list k u) (sym here) (one edge))
          | inr back ↦ (u, u_node, more back edge)
        ]
        | inr new ↦
            walk_back fuel u (u ∷ path) u_node u_left (new, once)
              (λ p on. elim (Bool-cases (u == p)) [
                | inl e ↦ subst (λ k. contains k (keys g.nodes) ≡ true) ((eq_iff u p).0 e) u_node
                | inr e ↦ nodes p (ground arith)
              ])
              (λ p on. elim (Bool-cases (u == p)) [
                | inl e ↦ inl (sym ((eq_iff u p).0 e))
                | inr e ↦ elim (way p (ground arith)) [
                  | inl here ↦
                      inr (subst (λ k. Reaches g.reverse_adjacency_list k u) (sym here) (one edge))
                  | inr back ↦ inr (more back edge)
                ]
              ])
              (omega arith)
      ]

  pub left_out-cycle :
      (x : String)
      → contains x (keys g.nodes) ≡ true
      → contains x t.order ≡ false
      → (y : String) × (contains y (keys g.nodes) ≡ true) × Reaches g.reverse_adjacency_list y y
  left_out-cycle x node left =
      walk_back (suc (length (keys g.nodes))) x [] node left tt (λ p h. absurd (ground arith))
        (λ p h. absurd (ground arith)) (omega arith)
