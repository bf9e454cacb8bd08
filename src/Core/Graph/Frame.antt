-- ===== src/Core/Graph/Frame.antt =====
-- One call of `visit`, taken apart, and what it leaves of the marks.
use qmtl.Base.{
  ℕ, zero, suc, String, List, [], ◌∷◌, ◌≡◌, refl, ◌∙◌, subst, true, false, not, ◌&&◌, ◌==◌, some,
  lookup, contains, contains-append, Dict, arith, eq_iff, eq_refl, ok, ◌>>=◌, ◌⊎◌, inl, inr,
  Bool-cases, Option-cases, bind-eq-ok,
}
use qmtl.Core.Node.{DataNode}
use qmtl.Core.Graph.{Marks, Visit, discard, visit_all, enter, leave, visit}
use qmtl.Core.Graph.Spec.{SameNames, IsOrdered, IsOrdered-snoc}

pub contains-discard :
    (x y : String) (xs : List String) → contains y (discard x xs) ≡ (not (x == y) && contains y xs)
contains-discard x y [] = ground arith
contains-discard x y (z ∷ xs) =
    ground (arith, contains-discard x y xs, eq_iff z x, eq_iff z y, eq_iff x y)

pub discard-absent : (x : String) (xs : List String) → contains x xs ≡ false → discard x xs ≡ xs
discard-absent x [] h = refl
discard-absent x (z ∷ xs) h = ground (arith, discard-absent x xs)

-- A successful call that did not find its node visited.
pub record Entered (m : Dict DataNode) (fuel : ℕ) (nid : String) (s s' : Marks) : Type 0 where
  pub unvisited : contains nid s.visited ≡ false
  pub unmarked : contains nid s.temp_mark ≡ false
  pub node : DataNode
  pub stored : lookup nid m ≡ some node
  pub inner : Marks
  pub expanded : visit_all (visit m fuel) node.dependencies (enter nid s) ≡ ok inner
  pub left : s' ≡ leave nid inner

pub visit-eq-ok :
    (m : Dict DataNode) (fuel : ℕ) (nid : String) (s s' : Marks)
    → visit m (suc fuel) nid s ≡ ok s'
    → (contains nid s.visited ≡ true) × (s' ≡ s) ⊎ Entered m fuel nid s s'
unfolding visit
visit-eq-ok m fuel nid s s' h = elim (Bool-cases (contains nid s.visited)) [
  | inl old ↦ inl (old, ground arith)
  | inr new ↦ elim (Bool-cases (contains nid s.temp_mark)) [
    | inl marked ↦ absurd (ground arith)
    | inr unmarked ↦ elim (Option-cases (lookup nid m)) [
      | inl absent ↦ absurd (ground arith)
      | inr (node, stored) ↦
          let found : (visit_all (visit m fuel) node.dependencies (enter nid s) >>= λ t.
          ok (leave nid t))
              ≡ ok s' =
            ground arith in
          let (inner, expanded, e) = bind-eq-ok _ _ found in
          inr (record {
            unvisited = new;
            unmarked = unmarked;
            node = node;
            stored = stored;
            inner = inner;
            expanded = expanded;
            left = cc;
          })
    ]
  ]
]

-- The order so far is topological, `visited` holds its names, and no marked node is visited.
pub record IsSound (m : Dict DataNode) (s : Marks) : Type 0 where
  pub ordered : IsOrdered m [] s.order
  pub same : SameNames s.visited s.order
  pub apart : (x : String) → contains x s.temp_mark ≡ true → contains x s.visited ≡ false

-- How the marks after a successful call stand to those before it.
pub record After (m : Dict DataNode) (s s' : Marks) : Type 0 where
  pub temp : s'.temp_mark ≡ s.temp_mark
  pub grows : (x : String) → contains x s.visited ≡ true → contains x s'.visited ≡ true
  pub keeps : IsSound m s → IsSound m s'

After-refl : (m : Dict DataNode) (s : Marks) → After m s s
After-refl m s = record { temp = refl; grows = λ x h. h; keeps = λ i. i }

After-trans : {m : Dict DataNode} {s t u : Marks} → After m s t → After m t u → After m s u
After-trans a b = record {
  temp = b.temp ∙ a.temp;
  grows = λ x h. b.grows x (a.grows x h);
  keeps = λ i. b.keeps (a.keeps i);
}

-- What is shown of every call: its frame, and that its node ends up visited.
abbrev pub Visits : Dict DataNode → Visit → Type 0
Visits m v =
    (nid : String) (s s' : Marks)
    → v nid s ≡ ok s'
    → After m s s' × (contains nid s'.visited ≡ true)

pub visit_all-After :
    (m : Dict DataNode) (v : Visit) (ds : List String) (s s' : Marks)
    → Visits m v
    → visit_all v ds s ≡ ok s'
    → After m s s' × ((d : String) → contains d ds ≡ true → contains d s'.visited ≡ true)
unfolding visit_all
visit_all-After m v [] s s' step h =
    (subst (After m s) (ground arith) (After-refl m s), λ d e. absurd (ground arith))
visit_all-After m v (d ∷ ds) s s' step h =
    let (t, visited, rest) = bind-eq-ok (v d s) (visit_all v ds) h in
    let (first, has_d) = step d s t visited in
    let (others, has_ds) = visit_all-After m v ds t s' step rest in
    (After-trans first others, λ e in_ds. ground (arith, others.grows d, has_ds e, eq_iff d e))

enter-IsSound :
    (m : Dict DataNode) (nid : String) (s : Marks)
    → contains nid s.visited ≡ false
    → IsSound m s
    → IsSound m (enter nid s)
enter-IsSound m nid s new i = record {
  ordered = i.ordered;
  same = i.same;
  apart = λ x h. ground (arith, i.apart x, eq_iff nid x);
}

module _ (m : Dict DataNode) (fuel : ℕ) (nid : String) (s s' : Marks) (e : Entered m fuel nid s s')
    (a : After m (enter nid s) e.inner)
    (deps : (d : String)
      → contains d e.node.dependencies ≡ true
      → contains d e.inner.visited ≡ true) where
  leave-IsSound : IsSound m s → IsSound m (leave nid e.inner)
  leave-IsSound i =
      let i' = a.keeps (enter-IsSound m nid s e.unvisited i) in
      record {
        ordered = IsOrdered-snoc [] e.inner.order nid i'.ordered (record {
          node = e.node;
          stored = e.stored;
          is_new = ground (
            arith,
            contains-append nid e.inner.order [],
            i'.same nid,
            i'.apart nid,
            a.temp,
            eq_refl nid,
          );
          deps_seen =
              λ d h. ground (arith, contains-append d e.inner.order [], i'.same d, deps d h);
        });
        same = λ d. ground (arith, contains-append d e.inner.order (nid ∷ []), i'.same d);
        apart = λ x h.
            ground (arith, contains-discard nid x e.inner.temp_mark, i'.apart x, eq_iff nid x);
      }

  leave-After : After m s (leave nid e.inner)
  leave-After = record {
    temp = ground (arith, a.temp, eq_refl nid, discard-absent nid s.temp_mark e.unmarked);
    grows = λ x h. ground (arith, a.grows x h);
    keeps = leave-IsSound;
  }

pub visit-Visits : (m : Dict DataNode) (fuel : ℕ) → Visits m (visit m fuel)
visit-Visits m zero nid s s' h = absurd (unfold visit in ground arith)
visit-Visits m (suc fuel) nid s s' h = elim (visit-eq-ok m fuel nid s s' h) [
  | inl (old, same) ↦ rw same (After-refl m s, old)
  | inr e ↦
      let (a, deps) =
        visit_all-After m (visit m fuel) e.node.dependencies (enter nid s) e.inner
          (visit-Visits m fuel) e.expanded in
      rw e.left (leave-After m fuel nid s s' e a deps, ground (arith, eq_refl nid))
]
