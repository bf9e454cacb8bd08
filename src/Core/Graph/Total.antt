-- ===== src/Core/Graph/Total.antt =====
-- The sort always decides: it ends, and over closed dependencies it returns an order or a cycle.
use qmtl.Base.{
  ℕ, zero, suc, ◌<◌, ◌≤◌, String, List, [], ◌∷◌, ◌≡◌, ◌≢◌, refl, true, false, not, contains, ok,
  err, arith, Dict, has_key, has_key-keys, keys, length, length-keys, keep_if, ◌⊎◌, inl, inr,
  eq_iff, Result, ap, ◌∙◌, insert, lookup-insert, ◌||◌,
}
use qmtl.Core.Node.{DataNode, node_map_of, add_all}
use qmtl.Core.Graph.{
  SortError, cycle, missing, out_of_fuel, Marks, visit, enter, no_marks, ids, sort_marks,
  get_topological_sort_result,
}
use qmtl.Core.Graph.Spec.{DependsOn, Reaches}
use qmtl.Core.Graph.Frame.{visit-Visits}
use qmtl.Core.Graph.Cycles.{
  marked, unknown, below, visit-eq-err, visit_all-Raised, order_bind,
  get_topological_sort_result-cycle,
}
use qmtl.Core.Graph.Acyclic.{get_topological_sort_result-acyclic}

-- How many keys are not marked: what bounds the depth of the recursion.
abbrev pub unmarked : List String → List String → ℕ
unmarked ks temp = length (keep_if (λ k. not (contains k temp)) ks)

unmarked-le : (ks temp : List String) (x : String) → unmarked ks (x ∷ temp) ≤ unmarked ks temp
unmarked-le [] temp x = omega arith
unmarked-le (k ∷ ks) temp x = ground (arith, unmarked-le ks temp x)

pub unmarked-lt :
    (ks temp : List String) (x : String)
    → contains x ks ≡ true
    → contains x temp ≡ false
    → unmarked ks (x ∷ temp) < unmarked ks temp
unmarked-lt [] temp x h new = absurd (ground arith)
unmarked-lt (k ∷ ks) temp x h new =
    ground (arith, unmarked-lt ks temp x, unmarked-le ks temp x, eq_iff k x, eq_iff x k)

pub unmarked-nil : (ks : List String) → unmarked ks [] ≡ length ks
unmarked-nil [] = refl
unmarked-nil (k ∷ ks) = ground (arith, unmarked-nil ks)

visit-ends :
    (m : Dict DataNode) (fuel : ℕ) (nid : String) (s : Marks)
    → unmarked (keys m) s.temp_mark < fuel
    → visit m fuel nid s ≢ err out_of_fuel
visit-ends m zero nid s room h = omega arith
visit-ends m (suc fuel) nid s room h = elim (visit-eq-err m fuel nid s out_of_fuel h) [
  | marked _ e ↦ cc
  | unknown _ e ↦ cc
  | below node stored off_path failed ↦
      let r =
        visit_all-Raised m (visit m fuel) node.dependencies (enter nid s) out_of_fuel
          (visit-Visits m fuel) failed in
      let listed : contains nid (keys m) ≡ true = ground (arith, has_key-keys nid m) in
      let fewer = unmarked-lt (keys m) s.temp_mark nid listed off_path in
      let same : unmarked (keys m) r.found.temp_mark ≡ unmarked (keys m) (nid ∷ s.temp_mark) =
        ap (unmarked (keys m)) r.temp in
      visit-ends m fuel r.culprit r.found (omega arith) r.raised
]

-- Every dependency of a stored node is stored.
abbrev pub IsClosed : Dict DataNode → Type 0
IsClosed m = (x y : String) → DependsOn m x y → has_key y m ≡ true

visit-finds :
    (m : Dict DataNode) (fuel : ℕ) (nid : String) (s : Marks)
    → IsClosed m
    → has_key nid m ≡ true
    → visit m fuel nid s ≢ err missing
visit-finds m zero nid s closed known h = absurd (unfold visit in ground arith)
visit-finds m (suc fuel) nid s closed known h = elim (visit-eq-err m fuel nid s missing h) [
  | marked _ e ↦ cc
  | unknown absent _ ↦ ground arith
  | below node stored _ failed ↦
      let r =
        visit_all-Raised m (visit m fuel) node.dependencies (enter nid s) missing
          (visit-Visits m fuel) failed in
      visit-finds m fuel r.culprit r.found closed
        (closed nid r.culprit (record { node = node; stored = stored; listed = r.listed })) r.raised
]

has_key-add_all :
    (m : Dict DataNode) (ns : List DataNode) (x : String)
    → has_key x (add_all m ns) ≡ (has_key x m || contains x (ids ns))
has_key-add_all m [] x = ground arith
has_key-add_all m (n ∷ ns) x =
    ground (arith, has_key-add_all (insert n.node_id n m) ns x, lookup-insert n.node_id x n m)

-- A call on a given node raised the error of the sort.
module _ (nodes : List DataNode) (e : SortError)
    (h : get_topological_sort_result nodes ≡ err e) where
  raised :
      (x : String) × (s : Marks) × (has_key x (node_map_of nodes) ≡ true)
      × (s.temp_mark ≡ [])
      × (visit (node_map_of nodes) (suc (length (node_map_of nodes))) x s ≡ err e)
  unfolding get_topological_sort_result sort_marks node_map_of
  raised =
      let m = node_map_of nodes in
      let r =
        visit_all-Raised m (visit m (suc (length m))) (ids nodes) no_marks e (visit-Visits m _)
          (order_bind (sort_marks nodes) e h) in
      (
        r.culprit,
        r.found,
        ground (arith, has_key-add_all [] nodes r.culprit, r.listed),
        r.temp,
        r.raised,
      )

-- The recursion of the sort ends: for no list of nodes does the depth reach the bound of the model.
pub sort_ends : (nodes : List DataNode) → get_topological_sort_result nodes ≢ err out_of_fuel
sort_ends nodes h =
    let (x, s, _, clear, e) = raised nodes out_of_fuel h in
    let m = node_map_of nodes in
    let bound : unmarked (keys m) s.temp_mark ≡ length m =
      ap (unmarked (keys m)) clear ∙ unmarked-nil (keys m) ∙ length-keys m in
    visit-ends m (suc (length m)) x s (omega arith) e

sort_finds :
    (nodes : List DataNode)
    → IsClosed (node_map_of nodes)
    → get_topological_sort_result nodes ≢ err missing
sort_finds nodes closed h =
    let (x, s, known, _, e) = raised nodes missing h in
    visit-finds (node_map_of nodes) (suc (length (node_map_of nodes))) x s closed known e

outcome_cases :
    (r : Result SortError (List String))
    → ((order : List String) × (r ≡ ok order)) ⊎ ((e : SortError) × (r ≡ err e))
outcome_cases (ok order) = inl (order, refl)
outcome_cases (err e) = inr (e, refl)

-- Where every dependency of a given node is itself given, the sort decides: it returns an order and
-- no given node reaches itself, or it raises the ValueError and some node does reach itself.
pub get_topological_sort_result_decides :
    (nodes : List DataNode)
    → IsClosed (node_map_of nodes)
    → ((order : List String) × (get_topological_sort_result nodes ≡ ok order)
        × ((x : String) → contains x (ids nodes) ≡ true → ¬ Reaches (node_map_of nodes) x x))
      ⊎ (get_topological_sort_result nodes ≡ err cycle)
        × ((x : String) × Reaches (node_map_of nodes) x x)
get_topological_sort_result_decides nodes closed =
    elim (outcome_cases (get_topological_sort_result nodes)) [
      | inl (order, h) ↦ inl (order, h, λ x. get_topological_sort_result-acyclic nodes order x h)
      | inr (cycle, h) ↦ inr (h, get_topological_sort_result-cycle nodes h)
      | inr (missing, h) ↦ absurd (sort_finds nodes closed h)
      | inr (out_of_fuel, h) ↦ absurd (sort_ends nodes h)
    ]
