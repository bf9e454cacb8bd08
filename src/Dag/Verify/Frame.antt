-- ===== src/Dag/Verify/Frame.antt =====
-- One call of the depth-first walk, taken apart, and what the nodes that it has finished satisfy.
use qmtl.Base.{
  ℕ, zero, suc, String, List, [], ◌∷◌, ◌≡◌, refl, ◌∙◌, subst, true, false, not, ◌&&◌, ◌||◌,
  contains, Dict, arith, eq_iff, eq_refl, ok, ◌>>=◌, ◌⊎◌, inl, inr, Bool-cases, bind-eq-ok, Bool,
  ◌==◌, sym,
}
use qmtl.Core.Graph.Frame.{contains-discard, discard-absent}
use qmtl.Dag.{at}
use qmtl.Dag.Verify.{Walk, Detect, detect_all, push, pop, detect, at-touch}
use qmtl.Dag.Verify.Paths.{Lists, Reaches, one, more}

-- Finished: visited, and no longer on the path.
abbrev pub done : Walk → String → Bool
done w x = contains x w.visited && not (contains x w.temp_stack)

-- A successful call that did not find its node visited.
pub record Entered (fuel : ℕ) (nid : String) (w w' : Walk) : Type 0 where
  pub unvisited : contains nid w.visited ≡ false
  pub unmarked : contains nid w.temp_stack ≡ false
  pub inner : Walk
  pub descended : detect_all (detect fuel) (at nid w.upstreams) (push nid w) ≡ ok inner
  pub left : w' ≡ pop nid inner

pub detect-eq-ok :
    (fuel : ℕ) (nid : String) (w w' : Walk)
    → detect (suc fuel) nid w ≡ ok w'
    → (done w nid ≡ true) × (w' ≡ w) ⊎ Entered fuel nid w w'
unfolding detect
detect-eq-ok fuel nid w w' h = elim (Bool-cases (contains nid w.temp_stack)) [
  | inl marked ↦ absurd (ground arith)
  | inr unmarked ↦ elim (Bool-cases (contains nid w.visited)) [
    | inl old ↦ inl (ground arith, ground arith)
    | inr new ↦
        let found : (detect_all (detect fuel) (at nid w.upstreams) (push nid w) >>= λ t.
        ok (pop nid t))
            ≡ ok w' =
          ground arith in
        let (inner, descended, e) = bind-eq-ok _ _ found in
        inr (record {
          unvisited = new;
          unmarked = unmarked;
          inner = inner;
          descended = descended;
          left = cc;
        })
  ]
]

-- The walk still reads the map `up`; what is on the path is visited; and the finished nodes hold
-- all of their upstreams and no cycle.
pub record IsSound (up : Dict (List String)) (w : Walk) : Type 0 where
  pub reads : (k : String) → at k w.upstreams ≡ at k up
  pub on_path : (x : String) → contains x w.temp_stack ≡ true → contains x w.visited ≡ true
  pub closed : (x y : String) → done w x ≡ true → Lists up x y → done w y ≡ true
  pub acyclic : (x : String) → done w x ≡ true → ¬ Reaches up x x

pub record After (up : Dict (List String)) (w w' : Walk) : Type 0 where
  pub temp : w'.temp_stack ≡ w.temp_stack
  pub grows : (x : String) → contains x w.visited ≡ true → contains x w'.visited ≡ true
  pub keeps : IsSound up w → IsSound up w'

pub After-refl : (up : Dict (List String)) (w : Walk) → After up w w
After-refl up w = record { temp = refl; grows = λ x h. h; keeps = λ i. i }

pub After-trans :
    {up : Dict (List String)} {s t u : Walk} → After up s t → After up t u → After up s u
After-trans a b = record {
  temp = b.temp ∙ a.temp;
  grows = λ x h. b.grows x (a.grows x h);
  keeps = λ i. b.keeps (a.keeps i);
}

abbrev pub Finishes : Dict (List String) → Detect → Type 0
Finishes up v =
    (nid : String) (w w' : Walk) → v nid w ≡ ok w' → After up w w' × (done w' nid ≡ true)

-- A finished node stays finished.
pub done-After :
    {up : Dict (List String)} {w w' : Walk} (x : String)
    → After up w w'
    → done w x ≡ true
    → done w' x ≡ true
done-After x a h = ground (arith, a.temp, a.grows x)

pub detect_all-After :
    (up : Dict (List String)) (v : Detect) (ds : List String) (w w' : Walk)
    → Finishes up v
    → detect_all v ds w ≡ ok w'
    → After up w w' × ((d : String) → contains d ds ≡ true → done w' d ≡ true)
unfolding detect_all
detect_all-After up v [] w w' step h =
    (subst (After up w) (ground arith) (After-refl up w), λ d e. absurd (ground arith))
detect_all-After up v (d ∷ ds) w w' step h =
    let (t, found, rest) = bind-eq-ok (v d w) (detect_all v ds) h in
    let (first, has_d) = step d w t found in
    let (others, has_ds) = detect_all-After up v ds t w' step rest in
    (
      After-trans first others,
      λ e in_ds. ground (arith, done-After d others has_d, has_ds e, eq_iff d e),
    )

pub push-IsSound :
    (up : Dict (List String)) (nid : String) (w : Walk)
    → contains nid w.visited ≡ false
    → IsSound up w
    → IsSound up (push nid w)
push-IsSound up nid w new i = record {
  reads = λ k. ground (arith, at-touch nid k w.upstreams, i.reads k);
  on_path = λ x h. ground (arith, i.on_path x);
  closed = λ x y h e. ground (arith, i.closed x y, i.on_path y, i.on_path x, eq_iff nid y, new);
  acyclic = λ x h. i.acyclic x (ground arith);
}

-- What a node reaches, all of whose upstreams are finished, is finished.
Reaches-done :
    {up : Dict (List String)} {w : Walk} {x y : String}
    → IsSound up w
    → ((d : String) → Lists up x d → done w d ≡ true)
    → Reaches up x y
    → done w y ≡ true
Reaches-done i deps (one {y} e) = deps y e
Reaches-done i deps (more {y} {z} r e) = i.closed y z (Reaches-done i deps r) e

module _ (up : Dict (List String)) (fuel : ℕ) (nid : String) (w w' : Walk)
    (e : Entered fuel nid w w') (a : After up (push nid w) e.inner)
    (deps : (d : String) → contains d (at nid w.upstreams) ≡ true → done e.inner d ≡ true) where
  done-pop : (x : String) → done (pop nid e.inner) x ≡ (done e.inner x || (nid == x))
  done-pop x =
      ground
        (arith, contains-discard nid x e.inner.temp_stack, a.grows nid, eq_refl nid, eq_iff nid x)

  pop-IsSound : IsSound up w → IsSound up (pop nid e.inner)
  pop-IsSound i =
      let i' = a.keeps (push-IsSound up nid w e.unvisited i) in
      let listed : (d : String) → Lists up nid d → done e.inner d ≡ true =
        λ d h. deps d (ground (arith, i.reads nid)) in
      record {
        reads = i'.reads;
        on_path = λ x h. ground (arith, contains-discard nid x e.inner.temp_stack, i'.on_path x);
        closed = λ x y h l. elim (Bool-cases (nid == x)) [
          | inl same ↦ ground (
            arith,
            done-pop y,
            listed y (subst (λ z. Lists up z y) (sym ((eq_iff nid x).0 same)) l),
          )
          | inr other ↦ ground (arith, done-pop x, done-pop y, i'.closed x y)
        ];
        acyclic = λ x h r. elim (Bool-cases (nid == x)) [
          | inl same ↦ ground (
            arith,
            Reaches-done i' listed (subst (λ z. Reaches up z z) (sym ((eq_iff nid x).0 same)) r),
            a.temp,
            eq_refl nid,
          )
          | inr other ↦ i'.acyclic x (ground (arith, done-pop x)) r
        ];
      }

  pop-After : After up w (pop nid e.inner) × (done (pop nid e.inner) nid ≡ true)
  pop-After = (
    record {
      temp = ground (arith, a.temp, eq_refl nid, discard-absent nid w.temp_stack e.unmarked);
      grows = λ x h. ground (arith, a.grows x);
      keeps = pop-IsSound;
    },
    ground (arith, done-pop nid, eq_refl nid),
  )

pub detect-Finishes : (up : Dict (List String)) (fuel : ℕ) → Finishes up (detect fuel)
detect-Finishes up zero nid w w' h = absurd (unfold detect in ground arith)
detect-Finishes up (suc fuel) nid w w' h = elim (detect-eq-ok fuel nid w w' h) [
  | inl (finished, same) ↦ rw same (After-refl up w, finished)
  | inr e ↦
      let (a, deps) =
        detect_all-After up (detect fuel) (at nid w.upstreams) (push nid w) e.inner
          (detect-Finishes up fuel) e.descended in
      rw e.left (pop-After up fuel nid w w' e a deps)
]
