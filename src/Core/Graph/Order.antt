-- ===== src/Core/Graph/Order.antt =====
-- A successful sort is a topological order of all nodes.
use qmtl.Base.{
  String, List, [], ◌≡◌, refl, true, suc, length, contains, ok, arith, bind-eq-ok, Dict, subst,
}
use qmtl.Core.Node.{DataNode, node_map_of}
use qmtl.Core.Graph.{visit, no_marks, ids, sort_marks, get_topological_sort_result}
use qmtl.Core.Graph.Spec.{IsOrdered}
use qmtl.Core.Graph.Frame.{IsSound, visit_all-After, visit-Visits}

no_marks-IsSound : (m : Dict DataNode) → IsSound m no_marks
no_marks-IsSound m = record { ordered = tt; same = λ d. refl; apart = λ x h. absurd (ground arith) }

-- Where the sort succeeds, each node of the order is stored, comes once, and comes after all of its
-- dependencies; and every given node is in the order.
pub get_topological_sort_result-IsOrdered :
    (nodes : List DataNode) (order : List String)
    → get_topological_sort_result nodes ≡ ok order
    → IsOrdered (node_map_of nodes) [] order
      × ((x : String) → contains x (ids nodes) ≡ true → contains x order ≡ true)
unfolding get_topological_sort_result sort_marks
get_topological_sort_result-IsOrdered nodes order h =
    let m = node_map_of nodes in
    let (s, sorted, e) = bind-eq-ok (sort_marks nodes) (λ s. ok s.order) h in
    let (a, has) =
      visit_all-After m (visit m (suc (length m))) (ids nodes) no_marks s (visit-Visits m _)
        sorted in
    let i = a.keeps (no_marks-IsSound m) in
    let same : s.order ≡ order = ground arith in
    (subst (IsOrdered m []) same i.ordered, λ x given. ground (arith, has x given, i.same x))
