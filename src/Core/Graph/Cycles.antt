-- ===== src/Core/Graph/Cycles.antt =====
-- The cycle error is raised for a cycle, and an order rules every cycle out.
use qmtl.Base.{
  ℕ, zero, suc, String, List, [], ◌∷◌, ◌≡◌, refl, true, false, contains, ok, err, arith, Dict, some,
  none, lookup, ◌⊎◌, inl, inr, Bool-cases, Option-cases, eq_iff, ◌>>=◌, Result, subst, length, sym,
}
use qmtl.Core.Node.{DataNode, node_map_of}
use qmtl.Core.Graph.{
  SortError, cycle, missing, Marks, Visit, visit, visit_all, enter, leave, no_marks, ids,
  sort_marks, get_topological_sort_result,
}
use qmtl.Core.Graph.Spec.{DependsOn, Reaches, one, more}
use qmtl.Core.Graph.Frame.{Visits, visit-Visits}

-- The call in a loop of visits that raised, and the marks that it found.
pub record Raised (m : Dict DataNode) (v : Visit) (ds : List String) (s : Marks) (e : SortError)
    : Type 0 where
  pub culprit : String
  pub listed : contains culprit ds ≡ true
  pub found : Marks
  pub temp : found.temp_mark ≡ s.temp_mark
  pub raised : v culprit found ≡ err e

Result-cases :
    (r : Result SortError Marks) → ((s : Marks) × (r ≡ ok s)) ⊎ ((e : SortError) × (r ≡ err e))
Result-cases (ok s) = inl (s, refl)
Result-cases (err e) = inr (e, refl)

pub visit_all-Raised :
    (m : Dict DataNode) (v : Visit) (ds : List String) (s : Marks) (e : SortError)
    → Visits m v
    → visit_all v ds s ≡ err e
    → Raised m v ds s e
unfolding visit_all
visit_all-Raised m v [] s e step h = absurd (ground arith)
visit_all-Raised m v (d ∷ ds) s e step h = elim (Result-cases (v d s)) [
  | inl (t, visited) ↦
      let later = visit_all-Raised m v ds t e step (ground arith) in
      let (a, _) = step d s t visited in
      record {
        culprit = later.culprit;
        listed = ground (arith, later.listed);
        found = later.found;
        temp = ground (arith, a.temp, later.temp);
        raised = later.raised;
      }
  | inr (e', failed) ↦ record {
    culprit = d;
    listed = ground (arith, eq_iff d d);
    found = s;
    temp = refl;
    raised = ground arith;
  }
]

-- The three ways in which a call raises, with what each one shows.
pub data Failure (m : Dict DataNode) (fuel : ℕ) (nid : String) (s : Marks) (e : SortError)
    : Type 0 where
  marked : contains nid s.temp_mark ≡ true → e ≡ cycle → Failure m fuel nid s e
  unknown : lookup nid m ≡ none → e ≡ missing → Failure m fuel nid s e
  below :
      (node : DataNode)
      → lookup nid m ≡ some node
      → contains nid s.temp_mark ≡ false
      → visit_all (visit m fuel) node.dependencies (enter nid s) ≡ err e
      → Failure m fuel nid s e

below_bind :
    (r : Result SortError Marks) (f : Marks → Marks) (e : SortError)
    → (r >>= λ s. ok (f s)) ≡ err e
    → r ≡ err e
below_bind (ok s) f e h = absurd (ground arith)
below_bind (err x) f e h = ground arith

pub visit-eq-err :
    (m : Dict DataNode) (fuel : ℕ) (nid : String) (s : Marks) (e : SortError)
    → visit m (suc fuel) nid s ≡ err e
    → Failure m fuel nid s e
unfolding visit
visit-eq-err m fuel nid s e h = elim (Bool-cases (contains nid s.visited)) [
  | inl old ↦ absurd (ground arith)
  | inr new ↦ elim (Bool-cases (contains nid s.temp_mark)) [
    | inl on_path ↦ marked on_path (ground arith)
    | inr off_path ↦ elim (Option-cases (lookup nid m)) [
      | inl absent ↦ unknown absent (ground arith)
      | inr (node, stored) ↦ below node stored off_path (below_bind _ (leave nid) e (ground arith))
    ]
  ]
]

-- Each marked node reaches the node that is about to be visited.
abbrev OnPath : Dict DataNode → List String → String → Type 0
OnPath m temp nid = (t : String) → contains t temp ≡ true → Reaches m t nid

OnPath-enter :
    {m : Dict DataNode} (temp : List String) (nid d : String)
    → DependsOn m nid d
    → OnPath m temp nid
    → OnPath m (nid ∷ temp) d
OnPath-enter {m} temp nid d edge path t h = elim (Bool-cases (contains t temp)) [
  | inl old ↦ more (path t old) edge
  | inr new ↦
      let same : nid ≡ t = ground (arith, eq_iff nid t) in
      subst (λ x. Reaches m x d) same (one edge)
]

visit-cycle :
    (m : Dict DataNode) (fuel : ℕ) (nid : String) (s : Marks)
    → visit m fuel nid s ≡ err cycle
    → OnPath m s.temp_mark nid
    → (x : String) × Reaches m x x
visit-cycle m zero nid s h path = absurd (unfold visit in ground arith)
visit-cycle m (suc fuel) nid s h path = elim (visit-eq-err m fuel nid s cycle h) [
  | marked on_path _ ↦ (nid, path nid on_path)
  | unknown _ e ↦ absurd (ground arith)
  | below node stored _ failed ↦
      let r =
        visit_all-Raised m (visit m fuel) node.dependencies (enter nid s) cycle
          (visit-Visits m fuel) failed in
      let edge : DependsOn m nid r.culprit = record {
        node = node;
        stored = stored;
        listed = r.listed;
      } in
      visit-cycle m fuel r.culprit r.found r.raised (
        subst (λ temp. OnPath m temp r.culprit) (sym r.temp)
          (OnPath-enter s.temp_mark nid r.culprit edge path))
]

pub order_bind :
    (r : Result SortError Marks) (e : SortError) → (r >>= λ s. ok s.order) ≡ err e → r ≡ err e
order_bind (ok s) e h = absurd (ground arith)
order_bind (err x) e h = ground arith

-- A ValueError is raised only where the dependencies do contain a cycle.
pub get_topological_sort_result-cycle :
    (nodes : List DataNode)
    → get_topological_sort_result nodes ≡ err cycle
    → (x : String) × Reaches (node_map_of nodes) x x
unfolding get_topological_sort_result sort_marks
get_topological_sort_result-cycle nodes h =
    let m = node_map_of nodes in
    let r =
      visit_all-Raised m (visit m (suc (length m))) (ids nodes) no_marks cycle (visit-Visits m _)
        (order_bind (sort_marks nodes) cycle h) in
    visit-cycle m (suc (length m)) r.culprit r.found r.raised
      (subst (λ temp. OnPath m temp r.culprit) (sym r.temp) (λ t e. absurd (ground arith)))
