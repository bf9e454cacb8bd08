-- ===== src/Core/Graph/Acyclic.antt =====
-- A graph that has a topological order has no cycle.
use qmtl.Base.{
  String, List, [], ◌∷◌, ◌≡◌, true, contains, ok, arith, Dict, inl, inr, Bool-cases, eq_iff, subst,
  ◌==◌,
}
use qmtl.Core.Node.{DataNode, node_map_of}
use qmtl.Core.Graph.{ids, get_topological_sort_result}
use qmtl.Core.Graph.Spec.{DependsOn, Reaches, one, more, CanFollow, IsOrdered}
use qmtl.Core.Graph.Order.{get_topological_sort_result-IsOrdered}

-- The names seen so far hold all dependencies of theirs.
abbrev HoldsDeps : Dict DataNode → List String → Type 0
HoldsDeps m seen =
    (x y : String) → contains x seen ≡ true → DependsOn m x y → contains y seen ≡ true

CanFollow-deps :
    {m : Dict DataNode} {seen : List String} {x : String} (y : String)
    → CanFollow m seen x
    → DependsOn m x y
    → contains y seen ≡ true
CanFollow-deps y c edge = c.deps_seen y (
    let same : edge.node ≡ c.node = ground (arith, edge.stored, c.stored) in
    subst (λ (n : DataNode). contains y n.dependencies ≡ true) same edge.listed)

HoldsDeps-cons :
    {m : Dict DataNode} {seen : List String} {x : String}
    → CanFollow m seen x
    → HoldsDeps m seen
    → HoldsDeps m (x ∷ seen)
HoldsDeps-cons {m} {seen} {x} c holds z y h edge = elim (Bool-cases (contains z seen)) [
  | inl old ↦ ground (arith, holds z y old edge)
  | inr new ↦
      let same : z ≡ x = ground (arith, eq_iff x z) in
      ground (arith, CanFollow-deps y c (subst (λ n. DependsOn m n y) same edge))
]

Reaches-seen :
    {m : Dict DataNode} {seen : List String} {x y : String}
    → CanFollow m seen x
    → HoldsDeps m seen
    → Reaches m x y
    → contains y seen ≡ true
Reaches-seen c holds (one {y} edge) = CanFollow-deps y c edge
Reaches-seen c holds (more {y} {z} r edge) = holds y z (Reaches-seen c holds r) edge

IsOrdered-acyclic :
    (m : Dict DataNode) (seen xs : List String) (x : String)
    → IsOrdered m seen xs
    → HoldsDeps m seen
    → contains x xs ≡ true
    → ¬ Reaches m x x
IsOrdered-acyclic m seen [] x h holds given r = absurd (ground arith)
IsOrdered-acyclic m seen (z ∷ xs) x h holds given r = elim (Bool-cases (z == x)) [
  | inl here ↦
      let same : z ≡ x = (eq_iff z x).0 here in
      let c : CanFollow m seen x = subst (CanFollow m seen) same h.0 in
      ground (arith, Reaches-seen c holds r, c.is_new)
  | inr later ↦ IsOrdered-acyclic m (z ∷ seen) xs x h.1 (HoldsDeps-cons h.0 holds) (ground arith) r
]

-- Where the sort succeeds, no given node reaches itself by dependencies.
pub get_topological_sort_result-acyclic :
    (nodes : List DataNode) (order : List String) (x : String)
    → get_topological_sort_result nodes ≡ ok order
    → contains x (ids nodes) ≡ true
    → ¬ Reaches (node_map_of nodes) x x
get_topological_sort_result-acyclic nodes order x h given =
    let (ordered, has) = get_topological_sort_result-IsOrdered nodes order h in
    IsOrdered-acyclic (node_map_of nodes) [] order x ordered (λ z y e. absurd (ground arith))
      (has x given)
