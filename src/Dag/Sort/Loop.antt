-- ===== src/Dag/Sort/Loop.antt =====
-- The invariant of Kahn's loop: a degree counts the upstreams that are not in the order yet.
use qmtl.Base.{
  IsOrderedBy-snoc, IsOrderedBy, ℕ, zero, suc, ◌+◌, ◌<◌, String, List, [], ◌∷◌, ◌++◌, ◌≡◌, refl,
  ◌∙◌, ap, subst, Bool, true, false, ◌||◌, none, some, Dict, lookup, lookup-insert, contains,
  contains-append, count, arith, eq_iff, eq_refl, Nodup, Nodup-snoc, ok, ◌>>=◌, inl, inr,
}
use qmtl.Dag.{at}
use qmtl.Dag.Verify.{at-touch}
use qmtl.Dag.Sort.{pos, Kahn, lower, lower_all, take_next, drain}
use qmtl.Dag.Sort.Ends.{measure, lower_all-measure, queue_cases}
use qmtl.Dag.Sort.Remaining.{remaining, remaining-snoc, none_remaining}

-- `ks` are the nodes; `ds` are the downstreams of the node just taken whose degrees are still to fall.
module _ (up : String → List String) (adjacency : Dict (List String)) (ks : List String)
    (mirrored : (c v : String) → count v (at c adjacency) ≡ count c (up v)) where
  abbrev pub due : List String → Kahn → String → ℕ
  due ds s v = remaining (up v) s.order + count v ds

  abbrev pub entered : Kahn → String → Bool
  entered s v = contains v s.queue || contains v s.order

  pub record Counts (ds : List String) (s : Kahn) : Type 0 where
    pub degrees :
        (v : String) → contains v ks ≡ true → lookup v s.in_degree ≡ some (pos (due ds s v))
    pub nodes_only : (v : String) → contains v ks ≡ false → lookup v s.in_degree ≡ none
    pub enters : (v : String) → contains v ks ≡ true → due ds s v ≡ zero → entered s v ≡ true
    pub entered_node : (v : String) → entered s v ≡ true → contains v ks ≡ true
    pub entered_free : (v : String) → entered s v ≡ true → due ds s v ≡ zero
    pub queued_once : Nodup s.queue
    pub apart : (v : String) → contains v s.queue ≡ true → contains v s.order ≡ false
    pub ordered : IsOrderedBy up [] s.order
    pub reads : (j : String) → at j s.downstreams ≡ at j adjacency

  -- The degree of `k` falls to `m`.
  lower-Counts :
      (k : String) (ds : List String) (m : ℕ) (s : Kahn)
      → Counts (k ∷ ds) s
      → contains k ks ≡ true
      → due ds s k ≡ m
      → Counts ds (lower k (pos m) s)
  lower-Counts k ds zero s c node h = record {
    degrees = λ v given.
        ground (arith, c.degrees v given, lookup-insert k v (pos zero) s.in_degree, eq_iff k v);
    nodes_only = λ v absent.
        ground (arith, c.nodes_only v absent, lookup-insert k v (pos zero) s.in_degree, eq_iff k v);
    enters = λ v given free. ground (arith, c.enters v given, contains-append v s.queue (k ∷ []));
    entered_node =
        λ v into. ground (arith, c.entered_node v, contains-append v s.queue (k ∷ []), eq_iff k v);
    entered_free =
        λ v into. ground (arith, c.entered_free v, contains-append v s.queue (k ∷ []), eq_iff k v);
    queued_once = Nodup-snoc k s.queue (ground (arith, c.entered_free k, eq_refl k)) c.queued_once;
    apart = λ v queued. ground (
      arith,
      c.apart v,
      c.entered_free k,
      contains-append v s.queue (k ∷ []),
      eq_iff k v,
      eq_refl k,
    );
    ordered = c.ordered;
    reads = c.reads;
  }
  lower-Counts k ds (suc m) s c node h = record {
    degrees = λ v given.
        ground (arith, c.degrees v given, lookup-insert k v (pos (suc m)) s.in_degree, eq_iff k v);
    nodes_only = λ v absent.
        ground
          (arith, c.nodes_only v absent, lookup-insert k v (pos (suc m)) s.in_degree, eq_iff k v);
    enters = λ v given free. ground (arith, c.enters v given, eq_iff k v);
    entered_node = c.entered_node;
    entered_free = λ v into. ground (arith, c.entered_free v into);
    queued_once = c.queued_once;
    apart = c.apart;
    ordered = c.ordered;
    reads = c.reads;
  }

  take_next-Counts :
      (x : String) (rest : List String) (s : Kahn)
      → s.queue ≡ x ∷ rest
      → Counts [] s
      → Counts (at x s.downstreams) (take_next x rest s)
  take_next-Counts x rest s q c =
      let new : contains x s.order ≡ false = c.apart x (ground (arith, eq_refl x)) in
      let once : Nodup (x ∷ rest) = subst Nodup q c.queued_once in
      let free : remaining (up x) s.order ≡ zero = ground (arith, c.entered_free x, eq_refl x) in
      let ds : at x s.downstreams ≡ at x adjacency = c.reads x in
      let same : (v : String)
          → remaining (up v) s.order
            ≡ remaining (up v) (s.order ++ x ∷ []) + count v (at x s.downstreams) =
        λ v. ground (arith, remaining-snoc (up v) s.order x, mirrored x v, ap (count v) ds) in
      record {
        degrees = λ v given. ground (arith, c.degrees v given, same v);
        nodes_only = c.nodes_only;
        enters = λ v given nothing.
            ground (arith, c.enters v given, same v, contains-append v s.order (x ∷ []));
        entered_node = λ v into.
            ground (arith, c.entered_node v, contains-append v s.order (x ∷ []), eq_iff x v);
        entered_free = λ v into.
            ground
              (arith, c.entered_free v, same v, contains-append v s.order (x ∷ []), eq_iff x v);
        queued_once = once.1;
        apart = λ v queued.
            ground (arith, c.apart v, contains-append v s.order (x ∷ []), once.0, eq_iff x v);
        ordered = IsOrderedBy-snoc up [] s.order x c.ordered (record {
          is_new = ground (arith, contains-append x s.order []);
          upstreams_seen = λ d given.
              ground
                (arith, none_remaining (up x) s.order d free given, contains-append d s.order []);
        });
        reads = λ j. at-touch x j s.downstreams ∙ c.reads j;
      }

  -- The loop over the downstreams of the node just taken: where they are nodes, it goes through.
  pub lower_all-Counts :
      (ds : List String) (s : Kahn)
      → Counts ds s
      → ((d : String) → contains d ds ≡ true → contains d ks ≡ true)
      → (t : Kahn) × (lower_all ds s ≡ ok t) × Counts [] t
  unfolding lower_all
  lower_all-Counts [] s c nodes = (s, refl, c)
  lower_all-Counts (k ∷ ds) s c nodes =
      let node = nodes k (ground (arith, eq_refl k)) in
      let m = due ds s k in
      let degree : lookup k s.in_degree ≡ some (pos (suc m)) =
        ground (arith, c.degrees k node, eq_refl k) in
      let (t, run, c') =
        lower_all-Counts ds (lower k (pos m) s) (lower-Counts k ds m s c node refl)
          (λ d given. nodes d (ground arith)) in
      (t, ground arith, c')

  drain_empty : (fuel : ℕ) (s : Kahn) → s.queue ≡ [] → drain (suc fuel) s ≡ ok s
  unfolding drain
  drain_empty fuel s e = ground arith

  drain_taken :
      (fuel : ℕ) (s : Kahn) (x : String) (rest : List String)
      → s.queue ≡ x ∷ rest
      → drain (suc fuel) s ≡ (lower_all (at x s.downstreams) (take_next x rest s) >>= drain fuel)
  unfolding drain
  drain_taken fuel s x rest e = ground arith

  -- With enough fuel the loop ends with an empty queue, and the invariant holds.
  pub drain-Counts :
      ((x v : String) → contains v (at x adjacency) ≡ true → contains v ks ≡ true)
      → (fuel : ℕ) (s : Kahn) → measure s < fuel
      → Counts [] s
      → (t : Kahn) × (drain fuel s ≡ ok t) × Counts [] t × (t.queue ≡ [])
  drain-Counts nodes zero s room c = absurd (omega arith)
  drain-Counts nodes (suc fuel) s room c = elim (queue_cases s.queue) [
    | inl e ↦ (s, drain_empty fuel s e, c, e)
    | inr (x, rest, e) ↦
        let ds = at x s.downstreams in
        let (t, run, c') =
          lower_all-Counts ds (take_next x rest s) (take_next-Counts x rest s e c)
            (λ d given. nodes x d (subst (λ l. contains d l ≡ true) (c.reads x) given)) in
        let fewer : measure t < fuel =
          ground (arith, lower_all-measure ds (take_next x rest s) t run) in
        let (u, drained, c'', empty) = drain-Counts nodes fuel t fewer c' in
        (u, drain_taken fuel s x rest e ∙ ap (λ r. r >>= drain fuel) run ∙ drained, c'', empty)
  ]
