-- ===== src/Sdk/Pipeline/Sort/Refines.antt =====
-- The search of the pipeline does what `visit` of the graph builder does on the same graph.
use qmtl.Base.{
  ℕ, zero, suc, String, List, [], ◌∷◌, ◌≡◌, refl, ◌∙◌, sym, ap, subst, Bool, true, false, Option,
  none, some, if◌then◌else◌, contains, Dict, lookup, Result, ok, err, arith, inl, inr, ◌⊎◌,
}
use qmtl.Core.Node.{DataNode}
use qmtl.Core.Graph.{
  Marks, SortError, cycle, missing, Visit, visit_all, visit, expand, enter, leave,
}
use qmtl.Core.Graph.Frame.{visit-Visits}
use qmtl.Sdk.Pipeline.Sort.{
  Status, unvisited, on_path, done, Dfs, Search, dfs_all, mark, finish, process, by_status, dfs,
  if_unvisited, dfs_unvisited,
}
use qmtl.Sdk.Pipeline.Sort.Same.{
  Marked, Same, Alike, Alike-bind, Simulates, dfs_all-Simulates, mark-Same, finish-Same,
}

-- The graph lists for each name the dependencies of its node.
abbrev pub Lists : Dict DataNode → Dict (List String) → Type 0
Lists m graph =
    (x : String)
    → ((lookup x graph ≡ none) × (lookup x m ≡ none))
      ⊎ ((n : DataNode) × (lookup x m ≡ some n) × (lookup x graph ≡ some n.dependencies))

process-Alike :
    (m : Dict DataNode) (graph : Dict (List String)) (v : Search) (w : Visit)
    → Lists m graph
    → Simulates m v w
    → (x : String) (s : Dfs) (t : Marks) → lookup x s.visited ≡ some unvisited
    → Same m s t
    → Alike m (process v (lookup x graph) x s) (expand w (lookup x m) x t)
process-Alike m graph v w l step x s t h i = elim (l x) [
  | inl (a, b) ↦
      subst (λ o. Alike m (process v o x s) (expand w (lookup x m) x t)) (sym a)
        (subst (λ o. Alike m (process v none x s) (expand w o x t)) (sym b) refl)
  | inr (n, b, a) ↦
      subst (λ o. Alike m (process v o x s) (expand w (lookup x m) x t)) (sym a)
        (subst (λ o. Alike m (process v (some n.dependencies) x s) (expand w o x t)) (sym b)
          (Alike-bind m (dfs_all v n.dependencies (mark x s))
            (visit_all w n.dependencies (enter x t)) (λ s'. ok (finish x s'))
            (λ t'. ok (leave x t'))
            (dfs_all-Simulates m v w n.dependencies (mark x s) (enter x t) step
              (mark-Same m x s t h i))
            (λ s' t' i' a b. finish-Same m x s' t' i')))
]

by_status-Alike :
    (m : Dict DataNode) (o : Option Status) (v : Search) (x : String) (s : Dfs) (t : Marks)
    (visited temp : Bool) (r : Result SortError Marks)
    → Marked o visited temp
    → Same m s t
    → (o ≡ none → r ≡ err missing)
    → (o ≡ some unvisited → Alike m (v x s) r)
    → Alike m (by_status o v x s) (if visited then ok t else if temp then err cycle else r)
by_status-Alike m none v x s t visited temp r h i gone fresh = rw h.0 (rw h.1 (rw (gone refl) refl))
by_status-Alike m (some unvisited) v x s t visited temp r h i gone fresh =
    rw h.0 (rw h.1 (fresh refl))
by_status-Alike m (some on_path) v x s t visited temp r h i gone fresh = rw h.0 (rw h.1 refl)
by_status-Alike m (some done) v x s t visited temp r h i gone fresh = rw h i

deeper-Simulates :
    (m : Dict DataNode) (graph : Dict (List String)) (fuel : ℕ)
    → Lists m graph
    → Simulates m (dfs graph fuel) (visit m fuel)
    → Simulates m (dfs graph (suc fuel)) (visit m (suc fuel))
unfolding dfs visit
deeper-Simulates m graph fuel l deeper x s t i =
    by_status-Alike m (lookup x s.visited) (process (dfs graph fuel) (lookup x graph)) x s t
      (contains x t.visited) (contains x t.temp_mark) (expand (visit m fuel) (lookup x m) x t)
      (i.marked x) i (λ e. ap (λ o. expand (visit m fuel) o x t) (i.keyed x e))
      (λ e. process-Alike m graph (dfs graph fuel) (visit m fuel) l deeper x s t e i)

dfs-Simulates :
    (m : Dict DataNode) (graph : Dict (List String)) (fuel : ℕ)
    → Lists m graph
    → Simulates m (dfs graph fuel) (visit m fuel)
dfs-Simulates m graph zero l x s t i = unfold dfs visit in refl
dfs-Simulates m graph (suc fuel) l x s t i =
    deeper-Simulates m graph fuel l (dfs-Simulates m graph fuel l) x s t i

-- Between the calls from outside no node is on a path, so the outer test is that of `visit`.
if_unvisited-Alike :
    (m : Dict DataNode) (o : Option Status) (v : Search) (x : String) (s : Dfs) (t : Marks)
    (visited : Bool) (r : Result SortError Marks)
    → Marked o visited false
    → Same m s t
    → (o ≡ none → r ≡ err missing)
    → (visited ≡ true → r ≡ ok t)
    → (o ≡ some unvisited → Alike m (v x s) r)
    → Alike m (if_unvisited o v x s) r
if_unvisited-Alike m none v x s t visited r h i gone old fresh = rw (gone refl) refl
if_unvisited-Alike m (some unvisited) v x s t visited r h i gone old fresh = fresh refl
if_unvisited-Alike m (some on_path) v x s t visited r h i gone old fresh = absurd (ground arith)
if_unvisited-Alike m (some done) v x s t visited r h i gone old fresh = rw (old h) i

visit_old :
    (m : Dict DataNode) (fuel : ℕ) (x : String) (t : Marks)
    → contains x t.visited ≡ true
    → visit m (suc fuel) x t ≡ ok t
unfolding visit
visit_old m fuel x t h = ground arith

visit_missing :
    (m : Dict DataNode) (fuel : ℕ) (x : String) (t : Marks)
    → contains x t.visited ≡ false
    → contains x t.temp_mark ≡ false
    → lookup x m ≡ none
    → visit m (suc fuel) x t ≡ err missing
unfolding visit
visit_missing m fuel x t h k e = ground arith

pub dfs_unvisited-Alike :
    (m : Dict DataNode) (graph : Dict (List String)) (fuel : ℕ) (ns : List String) (s : Dfs)
    (t : Marks)
    → Lists m graph
    → t.temp_mark ≡ []
    → Same m s t
    → Alike m (dfs_unvisited (dfs graph (suc fuel)) ns s) (visit_all (visit m (suc fuel)) ns t)
unfolding dfs_unvisited visit_all
dfs_unvisited-Alike m graph fuel [] s t l e i = i
dfs_unvisited-Alike m graph fuel (n ∷ ns) s t l e i =
    let off : contains n t.temp_mark ≡ false = ap (contains n) e in
    let here : Marked (lookup n s.visited) (contains n t.visited) false =
      subst (Marked (lookup n s.visited) (contains n t.visited)) off (i.marked n) in
    Alike-bind m (if_unvisited (lookup n s.visited) (dfs graph (suc fuel)) n s)
      (visit m (suc fuel) n t) (dfs_unvisited (dfs graph (suc fuel)) ns)
      (visit_all (visit m (suc fuel)) ns)
      (if_unvisited-Alike m (lookup n s.visited) (dfs graph (suc fuel)) n s t (contains n t.visited)
        (visit m (suc fuel) n t) here i
        (λ gone.
          visit_missing m fuel n t (subst (λ o. Marked o (contains n t.visited) false) gone here).0
            off (i.keyed n gone))
        (visit_old m fuel n t) (λ fresh. dfs-Simulates m graph (suc fuel) l n s t i))
      (λ s' t' i' a b.
        let (after, has) = visit-Visits m (suc fuel) n t t' b in
        dfs_unvisited-Alike m graph fuel ns s' t' l (after.temp ∙ e) i')
