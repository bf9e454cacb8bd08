-- ===== src/Dag/Verify/Decides.antt =====
-- `verify_acyclic` ends, accepts exactly the acyclic graphs, and names a node on a cycle otherwise.
use qmtl.Base.{
  ℕ, zero, suc, ◌<◌, String, List, [], ◌∷◌, ◌≡◌, refl, ◌∙◌, subst, sym, ap, true, contains,
  contains-append, keys, length, Dict, arith, eq_iff, ok, err, ◌⊎◌, inl, inr, Bool-cases, lookup,
}
use qmtl.Dag.{DagService, at}
use qmtl.Dag.Verify.{
  DagError, cyclic, incomplete, key_error, out_of_fuel, Walk, push, detect, all_listed, names,
  start, walk, mark_verified, verify_acyclic,
}
use qmtl.Dag.Verify.Paths.{Lists, Reaches, one, more}
use qmtl.Dag.Verify.Frame.{IsSound, detect-Finishes, push-IsSound}
use qmtl.Core.Graph.Total.{unmarked, unmarked-lt, unmarked-nil}
use qmtl.Dag.Verify.Raised.{
  detect_all-Raised, detect_unvisited-Raised, detect_unvisited-After, marked, below, detect-eq-err,
  result_cases,
}

-- Each node on the path reaches the node that is about to be walked.
abbrev OnPath : Dict (List String) → List String → String → Type 0
OnPath up temp nid = (t : String) → contains t temp ≡ true → Reaches up t nid

OnPath-push :
    {up : Dict (List String)} (temp : List String) (nid d : String)
    → Lists up nid d
    → OnPath up temp nid
    → OnPath up (nid ∷ temp) d
OnPath-push {up} temp nid d edge path t h = elim (Bool-cases (contains t temp)) [
  | inl old ↦ more (path t old) edge
  | inr new ↦
      let same : nid ≡ t = ground (arith, eq_iff nid t) in
      subst (λ x. Reaches up x d) same (one edge)
]

-- What a failing call shows, whichever error it is.
abbrev Shows : Dict (List String) → DagError → Type 0
Shows up (cyclic x) = Reaches up x x
Shows up incomplete = ⊥
Shows up key_error = ⊥
Shows up out_of_fuel = ⊥

listed-all :
    (x y : String) (d : Dict (List String)) → Lists d x y → contains y (all_listed d) ≡ true
unfolding lookup
listed-all x y [] h = absurd (ground arith)
listed-all x y ((k, v) ∷ d) h = ground (arith, contains-append y v (all_listed d), listed-all x y d)

-- The measure: how many of the names are not on the path.
module _ (up : Dict (List String)) (all : List String)
    (universe : (x y : String) → Lists up x y → contains y all ≡ true) where
  detect-Shows :
      (fuel : ℕ) (nid : String) (w : Walk) (e : DagError)
      → IsSound up w
      → contains nid all ≡ true
      → unmarked all w.temp_stack < fuel
      → OnPath up w.temp_stack nid
      → detect fuel nid w ≡ err e
      → Shows up e
  detect-Shows zero nid w e i known room path h = absurd (omega arith)
  detect-Shows (suc fuel) nid w e i known room path h = elim (detect-eq-err fuel nid w e h) [
    | marked on_path same ↦ subst (Shows up) (sym same) (path nid on_path)
    | below off_path new failed ↦
        let r =
          detect_all-Raised up (detect fuel) (at nid w.upstreams) (push nid w) e
            (detect-Finishes up fuel) failed in
        let edge : Lists up nid r.culprit = ground (arith, r.listed, i.reads nid) in
        let fewer = unmarked-lt all w.temp_stack nid known off_path in
        let same : unmarked all r.found.temp_stack ≡ unmarked all (nid ∷ w.temp_stack) =
          ap (unmarked all) r.temp in
        detect-Shows fuel r.culprit r.found e (r.sound (push-IsSound up nid w new i))
          (universe nid r.culprit edge) (omega arith)
          (subst (λ temp. OnPath up temp r.culprit) (sym r.temp)
            (OnPath-push w.temp_stack nid r.culprit edge path))
          r.raised
  ]

start-IsSound : (g : DagService) → IsSound g.reverse_adjacency_list (start g)
start-IsSound g = record {
  reads = λ k. refl;
  on_path = λ x h. absurd (ground arith);
  closed = λ x y h l. absurd (ground arith);
  acyclic = λ x h. absurd (ground arith);
}

names-Lists :
    (g : DagService) (x y : String)
    → Lists g.reverse_adjacency_list x y
    → contains y (names g) ≡ true
names-Lists g x y h = ground (
  arith,
  contains-append y (keys g.nodes) (all_listed g.reverse_adjacency_list),
  listed-all x y g.reverse_adjacency_list h,
)

walk-Shows : (g : DagService) (e : DagError) → walk g ≡ err e → Shows g.reverse_adjacency_list e
unfolding walk
walk-Shows g e h =
    let up = g.reverse_adjacency_list in
    let fuel = suc (length (names g)) in
    let r =
      detect_unvisited-Raised up (detect fuel) (keys g.nodes) (start g) e (detect-Finishes up fuel)
        h in
    let bound : unmarked (names g) r.found.temp_stack ≡ length (names g) =
      ap (unmarked (names g)) r.temp ∙ unmarked-nil (names g) in
    detect-Shows up (names g) (names-Lists g) fuel r.culprit r.found e (r.sound (start-IsSound g))
      (ground (arith, contains-append r.culprit (keys g.nodes) (all_listed up), r.listed))
      (omega arith)
      (subst (λ temp. OnPath up temp r.culprit) (sym r.temp) (λ t x. absurd (ground arith)))
      r.raised

-- What `verify_acyclic` leaves: the graph reads as before, is marked, and has no cycle.
pub record IsVerified (g g' : DagService) : Type 0 where
  pub nodes : g'.nodes ≡ g.nodes
  pub adjacency : g'.adjacency_list ≡ g.adjacency_list
  pub reads : (k : String) → at k g'.reverse_adjacency_list ≡ at k g.reverse_adjacency_list
  pub verified : g'.verified ≡ true
  pub acyclic :
      (x : String) → contains x (keys g.nodes) ≡ true → ¬ Reaches g.reverse_adjacency_list x x

walk-IsVerified : (g : DagService) (w : Walk) → walk g ≡ ok w → IsVerified g (mark_verified g w)
unfolding walk
walk-IsVerified g w h =
    let up = g.reverse_adjacency_list in
    let fuel = suc (length (names g)) in
    let (a, finished) =
      detect_unvisited-After up (detect fuel) (keys g.nodes) (start g) w (detect-Finishes up fuel)
        refl h in
    let i = a.keeps (start-IsSound g) in
    record {
      nodes = refl;
      adjacency = refl;
      reads = i.reads;
      verified = refl;
      acyclic = λ x given. i.acyclic x (finished x given);
    }

-- The cycle test decides: it returns, the graph reads as before and no node reaches itself by its
-- upstreams; or it raises the cyclic error at a node that does reach itself. No other error occurs.
pub verify_acyclic_decides :
    (g : DagService)
    → ((g' : DagService) × (verify_acyclic g ≡ ok g') × IsVerified g g')
      ⊎ ((x : String) × (verify_acyclic g ≡ err (cyclic x)) × Reaches g.reverse_adjacency_list x x)
unfolding verify_acyclic
verify_acyclic_decides g = elim (result_cases (walk g)) [
  | inl (w, h) ↦ inl (mark_verified g w, rw h, walk-IsVerified g w h)
  | inr (cyclic x, h) ↦ inr (x, rw h, walk-Shows g (cyclic x) h)
  | inr (incomplete, h) ↦ absurd (walk-Shows g incomplete h)
  | inr (key_error, h) ↦ absurd (walk-Shows g key_error h)
  | inr (out_of_fuel, h) ↦ absurd (walk-Shows g out_of_fuel h)
]
