-- ===== src/Dag/Sort/Order.antt =====
-- `get_topological_order` on a graph whose two maps mirror each other: it returns an order of all
-- nodes, or there is a cycle.
pub mod Stuck
pub mod Decides
use qmtl.Base.{
  ℕ, zero, suc, ◌+◌, ◌≤◌, ◌<◌, String, List, [], ◌∷◌, ◌++◌, ◌≡◌, refl, ◌∙◌, sym, ap, subst, Bool,
  true, false, ◌||◌, Option, none, some, ◌==◌, if◌then◌else◌, if_true, if_false, Dict, lookup, keys,
  contains, count, length, remove, contains-remove_ne, arith, eq_iff, eq_refl, Nodup, Result, ok,
  err, ◌>>=◌, Bool-cases, inl, inr, nat_eq,
}
use qmtl.Dag.{DagService, at}
use qmtl.Dag.Verify.{DagError, incomplete}
use qmtl.Dag.Sort.{Kahn, begin, drain, check_complete, sort_verified, count_degrees, zero_degrees}
use qmtl.Dag.Sort.Ends.{begin-measure, measure}
use qmtl.Dag.Sort.Loop.{Counts, drain-Counts}
use qmtl.Dag.Sort.Degrees.{begin-Counts}

-- What `build_dag` makes sure of, for nodes with distinct ids: the two maps hold the same edges as
-- often, and the downstreams are nodes.
pub record IsConsistent (g : DagService) : Type 0 where
  pub once : Nodup (keys g.nodes)
  pub mirrored :
      (c v : String) → count v (at c g.adjacency_list) ≡ count c (at v g.reverse_adjacency_list)
  pub downstream_nodes :
      (x v : String) → contains v (at x g.adjacency_list) ≡ true → contains v (keys g.nodes) ≡ true

-- The state in which Kahn's loop stops.
pub record Stops (g : DagService) (i : IsConsistent g) (t : Kahn) : Type 0 where
  pub counts :
      Counts (λ v. at v g.reverse_adjacency_list) g.adjacency_list (keys g.nodes) i.mirrored [] t
  pub empty : t.queue ≡ []

pub sort_verified_lem :
    (g : DagService) (i : IsConsistent g)
    → (t : Kahn) × (g' : DagService) × (sort_verified g ≡ check_complete g' t)
      × (g'.nodes ≡ g.nodes)
      × Stops g i t
unfolding sort_verified
sort_verified_lem g i =
    let (up', d, run, reads, c) = begin-Counts g i.mirrored i.once in
    let (t, drained, c', empty) =
      drain-Counts _ g.adjacency_list (keys g.nodes) i.mirrored i.downstream_nodes (suc (length d))
        (begin g d) (ground (arith, begin-measure d)) c in
    let g' : DagService = record g { reverse_adjacency_list = up' } in
    (
      t,
      g',
      ap
            (λ r. r >>= λ p.
              drain (suc (length p.1)) (begin g p.1)
              >>= check_complete (record g { reverse_adjacency_list = p.0 }))
            run
          ∙ ap (λ r. r >>= check_complete g') drained,
      refl,
      record { counts = c'; empty = empty },
    )
