-- ===== src/Dag/Sort/Degrees.antt =====
-- The degrees at the start: for each node, how many upstreams it lists.
use qmtl.Base.{
  ℕ, zero, suc, ◌+◌, String, List, [], ◌∷◌, ◌≡◌, refl, ◌∙◌, sym, ap, subst, Bool, true, false,
  Option, none, some, ◌==◌, if◌then◌else◌, if_true, if_false, Dict, lookup, lookup-insert, insert,
  keys, contains, Nodup-keys-insert, count, length, arith, eq_iff, eq_refl, Nodup, ok, ◌>>=◌,
  Bool-cases, inl, inr,
}
use qmtl.Dag.{DagService, at}
use qmtl.Dag.Verify.{touch, at-touch}
use qmtl.Dag.Sort.{ℤ, pos, is_zero, zero_degrees, count_upstreams, count_degrees, zero_ids, begin}
use qmtl.Dag.Sort.Remaining.{remaining-nil}
use qmtl.Dag.Sort.Loop.{Counts}

lookup-zero_degrees :
    (ns : List String) (d : Dict ℤ) (v : String)
    → lookup v (zero_degrees ns d) ≡ (if contains v ns then some (pos zero) else lookup v d)
lookup-zero_degrees [] d v = refl
lookup-zero_degrees (n ∷ ns) d v =
    ground (arith, lookup-zero_degrees ns (insert n (pos zero) d) v, lookup-insert n v (pos zero) d)

Nodup-zero_degrees :
    (ns : List String) (d : Dict ℤ) → Nodup (keys d) → Nodup (keys (zero_degrees ns d))
Nodup-zero_degrees [] d u = u
Nodup-zero_degrees (n ∷ ns) d u =
    Nodup-zero_degrees ns (insert n (pos zero) d) (Nodup-keys-insert n (pos zero) d u)

-- The counting loop of one node with a degree adds the length of its list.
count_upstreams_lem :
    (n : String) (deps : List String) (d : Dict ℤ) (k : ℕ)
    → lookup n d ≡ some (pos k)
    → Nodup (keys d)
    → (d' : Dict ℤ) × (count_upstreams n deps d ≡ ok d')
      × Nodup (keys d')
      × ((v : String) → lookup v d' ≡ (if n == v then some (pos (k + length deps)) else lookup v d))
unfolding count_upstreams
count_upstreams_lem n [] d k h u = (d, refl, u, λ v. ground (arith, eq_iff n v))
count_upstreams_lem n (x ∷ deps) d k h u =
    let (d', run, u', after) =
      count_upstreams_lem n deps (insert n (pos (suc k)) d) (suc k)
        (lookup-insert n n (pos (suc k)) d ∙ if_true _ _ _ (eq_refl n))
        (Nodup-keys-insert n (pos (suc k)) d u) in
    (d', ground arith, u', λ v. ground (arith, after v, lookup-insert n v (pos (suc k)) d))

-- All nodes are counted, each once, and the map of upstreams reads as before.
record Counted (ns : List String) (up up' : Dict (List String)) (d d' : Dict ℤ) : Type 0 where
  unique : Nodup (keys d')
  degrees :
      (v : String)
      → lookup v d' ≡ (if contains v ns then some (pos (length (at v up))) else lookup v d)
  reads : (v : String) → at v up' ≡ at v up

count_degrees_lem :
    (ns : List String) (up : Dict (List String)) (d : Dict ℤ)
    → Nodup ns
    → ((v : String) → contains v ns ≡ true → lookup v d ≡ some (pos zero))
    → Nodup (keys d)
    → (up' : Dict (List String)) × (d' : Dict ℤ) × (count_degrees ns up d ≡ ok (up', d'))
      × Counted ns up up' d d'
unfolding count_degrees
count_degrees_lem [] up d once zeros u =
    (up, d, refl, record { unique = u; degrees = λ v. refl; reads = λ v. refl })
count_degrees_lem (n ∷ ns) up d once zeros u =
    let (d₁, run, u₁, after) =
      count_upstreams_lem n (at n up) d zero (zeros n (ground (arith, eq_refl n))) u in
    let (up', d', rest, c) =
      count_degrees_lem ns (touch n up) d₁ once.1
        (λ v given. ground (arith, after v, zeros v, once.0, eq_iff n v)) u₁ in
    (
      up',
      d',
      ap (λ r. r >>= count_degrees ns (touch n up)) run ∙ rest,
      record {
        unique = c.unique;
        degrees = λ v. ground (arith, c.degrees v, after v, at-touch n v up, once.0, eq_iff n v);
        reads = λ v. c.reads v ∙ at-touch n v up;
      },
    )

abbrev zero_at : Option ℤ → Bool
zero_at none = false
zero_at (some n) = is_zero n

contains-zero_ids-keys :
    (v : String) (d : Dict ℤ) → contains v (zero_ids d) ≡ true → contains v (keys d) ≡ true
contains-zero_ids-keys v [] h = h
contains-zero_ids-keys v ((k, n) ∷ d) h = ground (arith, contains-zero_ids-keys v d)

contains-zero_ids :
    (v : String) (d : Dict ℤ) → Nodup (keys d) → contains v (zero_ids d) ≡ zero_at (lookup v d)
unfolding lookup
contains-zero_ids v [] u = refl
contains-zero_ids v ((k, n) ∷ d) u =
    ground (arith, contains-zero_ids v d u.1, contains-zero_ids-keys v d, u.0, eq_iff k v)

Nodup-zero_ids : (d : Dict ℤ) → Nodup (keys d) → Nodup (zero_ids d)
Nodup-zero_ids [] u = tt
Nodup-zero_ids ((k, n) ∷ d) u = elim (Bool-cases (is_zero n)) [
  | inr positive ↦ subst Nodup (sym (if_false _ _ _ positive)) (Nodup-zero_ids d u.1)
  | inl free ↦
      let new : contains k (zero_ids d) ≡ false = ground (arith, contains-zero_ids-keys k d, u.0) in
      subst Nodup (sym (if_true _ _ _ free)) (new, Nodup-zero_ids d u.1)
]

is_zero-length : (k : ℕ) → is_zero (pos k) ≡ true → k ≡ zero
is_zero-length zero h = refl
is_zero-length (suc k) h = absurd (ground arith)

-- Kahn's loop starts from counted degrees with its invariant.
pub begin-Counts :
    (g : DagService)
    → (mirrored : (c v : String)
        → count v (at c g.adjacency_list) ≡ count c (at v g.reverse_adjacency_list))
    → Nodup (keys g.nodes)
    → (up' : Dict (List String)) × (d : Dict ℤ) × (count_degrees
          (keys g.nodes)
          g.reverse_adjacency_list
          (zero_degrees (keys g.nodes) [])
        ≡ ok (up', d))
      × ((v : String) → at v up' ≡ at v g.reverse_adjacency_list)
      × Counts
          (λ v. at v g.reverse_adjacency_list)
          g.adjacency_list
          (keys g.nodes)
          mirrored
          []
          (begin g d)
unfolding lookup
begin-Counts g mirrored once =
    let ks = keys g.nodes in
    let up = g.reverse_adjacency_list in
    let (up', d, run, c) =
      count_degrees_lem ks up (zero_degrees ks []) once
        (λ v given. lookup-zero_degrees ks [] v ∙ if_true _ _ _ given)
        (Nodup-zero_degrees ks [] tt) in
    let degree : (v : String) → contains v ks ≡ true → lookup v d ≡ some (pos (length (at v up))) =
      λ v given. c.degrees v ∙ if_true _ _ _ given in
    let absent : (v : String) → contains v ks ≡ false → lookup v d ≡ none =
      λ v h. ground (arith, c.degrees v, lookup-zero_degrees ks [] v) in
    let zero_in : (v : String) → contains v (zero_ids d) ≡ zero_at (lookup v d) =
      λ v. contains-zero_ids v d c.unique in
    (
      up',
      d,
      run,
      c.reads,
      record {
        degrees = λ v given. ground (arith, degree v given, remaining-nil (at v up));
        nodes_only = absent;
        enters = λ v given free. ground (arith, degree v given, remaining-nil (at v up), zero_in v);
        entered_node = λ v into. ground (arith, zero_in v, absent v);
        entered_free = λ v into. ground (
          arith,
          zero_in v,
          absent v,
          degree v,
          remaining-nil (at v up),
          is_zero-length (length (at v up)),
        );
        queued_once = Nodup-zero_ids d c.unique;
        apart = λ v h. refl;
        ordered = tt;
        reads = λ j. refl;
      },
    )
