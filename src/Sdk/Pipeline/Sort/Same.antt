-- ===== src/Sdk/Pipeline/Sort/Same.antt =====
-- The states and outcomes of the pipeline's search and of `visit` of the graph builder, compared.
use qmtl.Base.{
  String, List, [], ◌∷◌, ◌++◌, ◌≡◌, refl, ◌∙◌, sym, ap, subst, Bool, true, false, Option, none,
  some, ◌==◌, contains, Dict, lookup, lookup-insert, insert, Result, ok, err, ◌>>=◌, arith, eq_iff,
  if_true, if_false, Bool-cases, inl, inr,
}
use qmtl.Core.Node.{DataNode}
use qmtl.Core.Graph.{Marks, SortError, cycle, missing, Visit, visit_all, enter, leave}
use qmtl.Core.Graph.Frame.{contains-discard}
use qmtl.Sdk.Pipeline.{
  PipelineError, duplicate, no_intervals, no_period, no_interval, attribute_error, key_error,
  out_of_fuel, unknown_upstream, cyclic,
}
use qmtl.Sdk.Pipeline.Sort.{Status, unvisited, on_path, done, Dfs, Search, dfs_all, mark, finish}

-- What the two marks of a name are where it has a status.
abbrev pub Marked : Option Status → (visited temp : Bool) → Type 0
Marked none visited temp = (visited ≡ false) × (temp ≡ false)
Marked (some unvisited) visited temp = (visited ≡ false) × (temp ≡ false)
Marked (some on_path) visited temp = (visited ≡ false) × (temp ≡ true)
Marked (some done) visited temp = visited ≡ true

-- The two states are the same but for the way they are kept.
pub record Same (m : Dict DataNode) (s : Dfs) (t : Marks) : Type 0 where
  pub result : s.result ≡ t.order
  pub marked :
      (x : String) → Marked (lookup x s.visited) (contains x t.visited) (contains x t.temp_mark)
  pub keyed : (x : String) → lookup x s.visited ≡ none → lookup x m ≡ none

-- The two outcomes are the same.
abbrev pub Alike : Dict DataNode → Result PipelineError Dfs → Result SortError Marks → Type 0
Alike m (ok s) (ok t) = Same m s t
Alike m (ok s) (err e) = ⊥
Alike m (err e) (ok t) = ⊥
Alike m (err (cyclic x)) (err e) = e ≡ cycle
Alike m (err key_error) (err e) = e ≡ missing
Alike m (err out_of_fuel) (err e) = e ≡ SortError.out_of_fuel
Alike m (err (unknown_upstream n u)) (err e) = ⊥
Alike m (err duplicate) (err e) = ⊥
Alike m (err no_intervals) (err e) = ⊥
Alike m (err no_period) (err e) = ⊥
Alike m (err no_interval) (err e) = ⊥
Alike m (err attribute_error) (err e) = ⊥

pub Alike-bind :
    (m : Dict DataNode) (a : Result PipelineError Dfs) (b : Result SortError Marks)
    (f : Dfs → Result PipelineError Dfs) (g : Marks → Result SortError Marks)
    → Alike m a b
    → ((s : Dfs) (t : Marks) → Same m s t → a ≡ ok s → b ≡ ok t → Alike m (f s) (g t))
    → Alike m (a >>= f) (b >>= g)
Alike-bind m (ok s) (ok t) f g h k = k s t h refl refl
Alike-bind m (ok s) (err e) f g h k = absurd h
Alike-bind m (err e) (ok t) f g h k = absurd h
Alike-bind m (err e) (err e') f g h k = h

abbrev pub Simulates : Dict DataNode → Search → Visit → Type 0
Simulates m v w = (x : String) (s : Dfs) (t : Marks) → Same m s t → Alike m (v x s) (w x t)

pub dfs_all-Simulates :
    (m : Dict DataNode) (v : Search) (w : Visit) (us : List String) (s : Dfs) (t : Marks)
    → Simulates m v w
    → Same m s t
    → Alike m (dfs_all v us s) (visit_all w us t)
unfolding dfs_all visit_all
dfs_all-Simulates m v w [] s t step h = h
dfs_all-Simulates m v w (u ∷ us) s t step h =
    Alike-bind m (v u s) (w u t) (dfs_all v us) (visit_all w us) (step u s t h)
      (λ s' t' h' a b. dfs_all-Simulates m v w us s' t' step h')

-- The marks of another name than the one whose status is set.
Marked-other :
    (x y : String) (st : Status) (d : Dict Status) (v w v' w' : Bool)
    → (x == y) ≡ false
    → Marked (lookup y d) v w
    → v' ≡ v
    → w' ≡ w
    → Marked (lookup y (insert x st d)) v' w'
Marked-other x y st d v w v' w' ne h e f =
    rw e (rw f (subst (λ o. Marked o v w) (sym (lookup-insert x y st d ∙ if_false _ _ _ ne)) h))

Marked-own :
    (x y : String) (st : Status) (d : Dict Status) (v w : Bool)
    → (x == y) ≡ true
    → Marked (some st) v w
    → Marked (lookup y (insert x st d)) v w
Marked-own x y st d v w eq h =
    subst (λ o. Marked o v w) (sym (lookup-insert x y st d ∙ if_true _ _ _ eq)) h

pub mark-Same :
    (m : Dict DataNode) (x : String) (s : Dfs) (t : Marks)
    → lookup x s.visited ≡ some unvisited
    → Same m s t
    → Same m (mark x s) (enter x t)
mark-Same m x s t h i =
    let own : Marked (some unvisited) (contains x t.visited) (contains x t.temp_mark) =
      subst (λ o. Marked o (contains x t.visited) (contains x t.temp_mark)) h (i.marked x) in
    record {
      result = i.result;
      marked = λ y. elim (Bool-cases (x == y)) [
        | inl e ↦
            Marked-own x y on_path s.visited _ _ e (ground (arith, own.0, eq_iff x y), ground arith)
        | inr e ↦ Marked-other x y on_path s.visited _ _ _ _ e (i.marked y) refl (ground arith)
      ];
      keyed = λ y e. ground (arith, i.keyed y, lookup-insert x y on_path s.visited);
    }

pub finish-Same :
    (m : Dict DataNode) (x : String) (s : Dfs) (t : Marks)
    → Same m s t
    → Same m (finish x s) (leave x t)
finish-Same m x s t i = record {
  result = ap (λ r. r ++ x ∷ []) i.result;
  marked = λ y. elim (Bool-cases (x == y)) [
    | inl e ↦ Marked-own x y done s.visited _ _ e (ground arith)
    | inr e ↦
        Marked-other x y done s.visited _ _ _ _ e (i.marked y) (ground arith)
          (ground (arith, contains-discard x y t.temp_mark))
  ];
  keyed = λ y e. ground (arith, i.keyed y, lookup-insert x y done s.visited);
}
