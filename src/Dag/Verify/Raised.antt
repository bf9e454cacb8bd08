-- ===== src/Dag/Verify/Raised.antt =====
-- The loops of the walk: which call raised, and what is finished where none did.
use qmtl.Base.{
  ℕ, suc, String, List, [], ◌∷◌, ◌≡◌, refl, ◌∙◌, subst, true, false, contains, Dict, arith, eq_iff,
  ok, err, Result, ◌>>=◌, ◌⊎◌, inl, inr, Bool-cases, bind-eq-ok,
}
use qmtl.Dag.{at}
use qmtl.Dag.Verify.{
  DagError, cyclic, Walk, Detect, detect_all, push, pop, detect, detect_unvisited,
}
use qmtl.Dag.Verify.Frame.{done, IsSound, After, After-refl, After-trans, Finishes, done-After}

pub result_cases {ℓ} :
    {A : Type ℓ} (r : Result DagError A) → ((a : A) × (r ≡ ok a)) ⊎ ((e : DagError) × (r ≡ err e))
result_cases (ok a) = inl (a, refl)
result_cases (err e) = inr (e, refl)

-- The call in a loop that raised, and the walk that it found.
pub record Raised (up : Dict (List String)) (v : Detect) (ds : List String) (w : Walk)
    (e : DagError) : Type 0 where
  pub culprit : String
  pub listed : contains culprit ds ≡ true
  pub found : Walk
  pub temp : found.temp_stack ≡ w.temp_stack
  pub sound : IsSound up w → IsSound up found
  pub raised : v culprit found ≡ err e

later-Raised :
    {up : Dict (List String)} {v : Detect} {d : String} {ds : List String} {w t : Walk}
    {e : DagError}
    → After up w t
    → Raised up v ds t e
    → Raised up v (d ∷ ds) w e
later-Raised a r = record {
  culprit = r.culprit;
  listed = ground (arith, r.listed);
  found = r.found;
  temp = r.temp ∙ a.temp;
  sound = λ i. r.sound (a.keeps i);
  raised = r.raised;
}

first-Raised :
    {up : Dict (List String)} {v : Detect} (d : String) (ds : List String) (w : Walk) {e : DagError}
    → v d w ≡ err e
    → Raised up v (d ∷ ds) w e
first-Raised d ds w h = record {
  culprit = d;
  listed = ground (arith, eq_iff d d);
  found = w;
  temp = refl;
  sound = λ i. i;
  raised = h;
}

pub detect_all-Raised :
    (up : Dict (List String)) (v : Detect) (ds : List String) (w : Walk) (e : DagError)
    → Finishes up v
    → detect_all v ds w ≡ err e
    → Raised up v ds w e
unfolding detect_all
detect_all-Raised up v [] w e step h = absurd (ground arith)
detect_all-Raised up v (d ∷ ds) w e step h = elim (result_cases (v d w)) [
  | inl (t, found) ↦
      later-Raised (step d w t found).0 (detect_all-Raised up v ds t e step (ground arith))
  | inr (e', failed) ↦ first-Raised d ds w (ground arith)
]

pub detect_unvisited-Raised :
    (up : Dict (List String)) (v : Detect) (ds : List String) (w : Walk) (e : DagError)
    → Finishes up v
    → detect_unvisited v ds w ≡ err e
    → Raised up v ds w e
unfolding detect_unvisited
detect_unvisited-Raised up v [] w e step h = absurd (ground arith)
detect_unvisited-Raised up v (d ∷ ds) w e step h = elim (Bool-cases (contains d w.visited)) [
  | inl old ↦
      later-Raised (After-refl up w) (detect_unvisited-Raised up v ds w e step (ground arith))
  | inr new ↦ elim (result_cases (v d w)) [
    | inl (t, found) ↦
        later-Raised (step d w t found).0 (detect_unvisited-Raised up v ds t e step (ground arith))
    | inr (e', failed) ↦ first-Raised d ds w (ground arith)
  ]
]

-- At the top of the walk, where the path is empty, every node of the loop ends up finished.
pub detect_unvisited-After :
    (up : Dict (List String)) (v : Detect) (ds : List String) (w w' : Walk)
    → Finishes up v
    → w.temp_stack ≡ []
    → detect_unvisited v ds w ≡ ok w'
    → After up w w' × ((d : String) → contains d ds ≡ true → done w' d ≡ true)
unfolding detect_unvisited
detect_unvisited-After up v [] w w' step clear h =
    (subst (After up w) (ground arith) (After-refl up w), λ d e. absurd (ground arith))
detect_unvisited-After up v (d ∷ ds) w w' step clear h = elim (Bool-cases (contains d w.visited)) [
  | inl old ↦
      let (others, has_ds) = detect_unvisited-After up v ds w w' step clear (ground arith) in
      let has_d : done w d ≡ true = ground (arith, clear) in
      (others, λ e in_ds. ground (arith, done-After d others has_d, has_ds e, eq_iff d e))
  | inr new ↦
      let (t, found, rest) = bind-eq-ok (v d w) (detect_unvisited v ds) (ground arith) in
      let (first, has_d) = step d w t found in
      let (others, has_ds) = detect_unvisited-After up v ds t w' step (first.temp ∙ clear) rest in
      (
        After-trans first others,
        λ e in_ds. ground (arith, done-After d others has_d, has_ds e, eq_iff d e),
      )
]

pub data Failure (fuel : ℕ) (nid : String) (w : Walk) (e : DagError) : Type 0 where
  marked : contains nid w.temp_stack ≡ true → e ≡ cyclic nid → Failure fuel nid w e
  below :
      contains nid w.temp_stack ≡ false
      → contains nid w.visited ≡ false
      → detect_all (detect fuel) (at nid w.upstreams) (push nid w) ≡ err e
      → Failure fuel nid w e

below_bind :
    (r : Result DagError Walk) (f : Walk → Walk) (e : DagError)
    → (r >>= λ s. ok (f s)) ≡ err e
    → r ≡ err e
below_bind (ok s) f e h = absurd (ground arith)
below_bind (err x) f e h = ground arith

pub detect-eq-err :
    (fuel : ℕ) (nid : String) (w : Walk) (e : DagError)
    → detect (suc fuel) nid w ≡ err e
    → Failure fuel nid w e
unfolding detect
detect-eq-err fuel nid w e h = elim (Bool-cases (contains nid w.temp_stack)) [
  | inl on_path ↦ marked on_path (ground arith)
  | inr off_path ↦ elim (Bool-cases (contains nid w.visited)) [
    | inl old ↦ absurd (ground arith)
    | inr new ↦ below off_path new (below_bind _ (pop nid) e (ground arith))
  ]
]
