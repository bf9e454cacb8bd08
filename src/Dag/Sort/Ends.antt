-- ===== src/Dag/Sort/Ends.antt =====
-- The main loop of `get_topological_order` ends: each id enters the queue at most once.
use qmtl.Base.{
  ℕ, zero, suc, ◌+◌, ◌<◌, ◌≤◌, String, List, [], ◌∷◌, ◌++◌, ◌≡◌, ◌≢◌, refl, none, some, Dict,
  lookup, insert, keys, length, Result, ok, err, ◌>>=◌, Option-cases, arith, ◌⊎◌, inl, inr,
}
use qmtl.Dag.{DagService, at}
use qmtl.Dag.Verify.{DagError, out_of_fuel, touch}
use qmtl.Dag.Verify.Raised.{result_cases}
use qmtl.Dag.Verify.Decides.{verify_acyclic_decides}
use qmtl.Dag.Sort.{
  ℤ, pos, negsuc, increment, decrement, count_upstreams, count_degrees, zero_degrees, zero_ids,
  Kahn, lower, lower_all, take_next, drain, begin, check_complete, sort_verified,
  get_topological_order,
}

pub queue_cases : (q : List String) → (q ≡ []) ⊎ ((x : String) × (xs : List String) × (q ≡ x ∷ xs))
queue_cases [] = inl refl
queue_cases (x ∷ xs) = inr (x, xs, refl)

pub lookup_cases :
    (k : String) (d : Dict ℤ) → (lookup k d ≡ none) ⊎ ((n : ℤ) × (lookup k d ≡ some n))
lookup_cases k d = Option-cases (lookup k d)

abbrev pub weight : ℤ → ℕ
weight (pos zero) = zero
weight (pos (suc n)) = suc zero
weight (negsuc n) = zero

-- How many ids have a positive degree.
abbrev pub positives : Dict ℤ → ℕ
positives [] = zero
positives ((k, n) ∷ d) = weight n + positives d

abbrev pub measure : Kahn → ℕ
measure s = positives s.in_degree + length s.queue

positives-insert :
    (k : String) (n m : ℤ) (d : Dict ℤ)
    → lookup k d ≡ some n
    → positives (insert k m d) + weight n ≡ positives d + weight m
unfolding lookup insert
positives-insert k n m [] h = ground arith
positives-insert k n m ((j, v) ∷ d) h = ground (arith, positives-insert k n m d)

length-snoc : (k : String) (xs : List String) → length (xs ++ k ∷ []) ≡ suc (length xs)
length-snoc k [] = refl
length-snoc k (x ∷ xs) = rw (length-snoc k xs)

measure-lower :
    (k : String) (n : ℤ) (s : Kahn)
    → lookup k s.in_degree ≡ some n
    → measure (lower k (decrement n) s) ≤ measure s
measure-lower k (pos zero) s h =
    ground (arith, positives-insert k (pos zero) (negsuc zero) s.in_degree)
measure-lower k (pos (suc zero)) s h =
    ground (arith, positives-insert k (pos 1) (pos zero) s.in_degree, length-snoc k s.queue)
measure-lower k (pos (suc (suc m))) s h =
    ground (arith, positives-insert k (pos (suc (suc m))) (pos (suc m)) s.in_degree)
measure-lower k (negsuc m) s h =
    ground (arith, positives-insert k (negsuc m) (negsuc (suc m)) s.in_degree)

pub lower_all-measure :
    (ks : List String) (s t : Kahn) → lower_all ks s ≡ ok t → measure t ≤ measure s
unfolding lower_all
lower_all-measure [] s t h = ground arith
lower_all-measure (k ∷ ks) s t h = elim (lookup_cases k s.in_degree) [
  | inl e ↦ absurd (ground arith)
  | inr (n, e) ↦
      ground (arith, lower_all-measure ks (lower k (decrement n) s) t, measure-lower k n s)
]

lower_all-raises : (ks : List String) (s : Kahn) → lower_all ks s ≢ err out_of_fuel
unfolding lower_all
lower_all-raises [] s h = ground arith
lower_all-raises (k ∷ ks) s h = elim (lookup_cases k s.in_degree) [
  | inl e ↦ ground arith
  | inr (n, e) ↦ ground (arith, lower_all-raises ks (lower k (decrement n) s))
]

drain_next :
    (fuel : ℕ) (s : Kahn)
    → drain (suc fuel) s ≡ err out_of_fuel
    → (current : String) × (rest : List String) × (s.queue ≡ current ∷ rest)
      × ((lower_all (at current s.downstreams) (take_next current rest s) >>= drain fuel)
          ≡ err out_of_fuel)
unfolding drain
drain_next fuel s h = elim (queue_cases s.queue) [
  | inl e ↦ absurd (ground arith)
  | inr (current, rest, e) ↦ (current, rest, e, ground arith)
]

drain-raises : (fuel : ℕ) (s : Kahn) → measure s < fuel → drain fuel s ≢ err out_of_fuel
drain-raises zero s room h = omega arith
drain-raises (suc fuel) s room h =
    let (current, rest, queue, failed) = drain_next fuel s h in
    let next = take_next current rest s in
    let ds = at current s.downstreams in
    elim (result_cases (lower_all ds next)) [
      | inl (t, done) ↦
          drain-raises fuel t (ground (arith, lower_all-measure ds next t)) (ground arith)
      | inr (e, raised) ↦ ground (arith, lower_all-raises ds next)
    ]

pub begin-measure : (d : Dict ℤ) → positives d + length (zero_ids d) ≤ length d
begin-measure [] = ground arith
begin-measure ((k, pos zero) ∷ d) = ground (arith, begin-measure d)
begin-measure ((k, pos (suc n)) ∷ d) = ground (arith, begin-measure d)
begin-measure ((k, negsuc n) ∷ d) = ground (arith, begin-measure d)

count_upstreams-raises :
    (k : String) (deps : List String) (d : Dict ℤ) → count_upstreams k deps d ≢ err out_of_fuel
unfolding count_upstreams
count_upstreams-raises k [] d h = ground arith
count_upstreams-raises k (x ∷ xs) d h = elim (lookup_cases k d) [
  | inl e ↦ ground arith
  | inr (n, e) ↦ ground (arith, count_upstreams-raises k xs (insert k (increment n) d))
]

count_degrees-raises :
    (ns : List String) (up : Dict (List String)) (d : Dict ℤ)
    → count_degrees ns up d ≢ err out_of_fuel
unfolding count_degrees
count_degrees-raises [] up d h = ground arith
count_degrees-raises (n ∷ ns) up d h = elim (result_cases (count_upstreams n (at n up) d)) [
  | inl (d', e) ↦ ground (arith, count_degrees-raises ns (touch n up) d')
  | inr (x, e) ↦ ground (arith, count_upstreams-raises n (at n up) d)
]

check_complete-raises : (g : DagService) (s : Kahn) → check_complete g s ≢ err out_of_fuel
check_complete-raises g s h = ground arith

bind-raises {ℓ κ} :
    {A : Type ℓ} {B : Type κ} (m : Result DagError A) (f : A → Result DagError B)
    → m ≢ err out_of_fuel
    → ((a : A) → f a ≢ err out_of_fuel)
    → (m >>= f) ≢ err out_of_fuel
bind-raises (ok a) f hm hf h = hf a h
bind-raises (err e) f hm hf h = hm (ground arith)

sort_verified-raises : (g : DagService) → sort_verified g ≢ err out_of_fuel
unfolding sort_verified
sort_verified-raises g h =
    let ns = keys g.nodes in
    let up = g.reverse_adjacency_list in
    bind-raises (count_degrees ns up (zero_degrees ns [])) _ (count_degrees-raises ns up _)
      (λ p.
        bind-raises (drain (suc (length p.1)) (begin g p.1)) _
          (drain-raises _ (begin g p.1) (ground (arith, begin-measure p.1)))
          (check_complete-raises (record g { reverse_adjacency_list = p.0 })))
      h

-- The computation of the order ends within the model's bound on the rounds of its main loop, whatever
-- the two adjacency maps hold: each id enters the queue at most once.
pub get_topological_order_ends : (g : DagService) → get_topological_order g ≢ err out_of_fuel
unfolding get_topological_order
get_topological_order_ends g h = elim (verify_acyclic_decides g) [
  | inl (g', e, i) ↦ ground (arith, sort_verified-raises g', sort_verified-raises g)
  | inr (x, e, cyc) ↦ ground (arith, sort_verified-raises g)
]
