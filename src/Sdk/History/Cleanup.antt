-- ===== src/Sdk/History/Cleanup.antt =====
-- What `get_interval_data` returns after a clean-up.
use qmtl.Base.{
  ℕ, ◌≤◌, String, List, [], ◌∷◌, ◌≡◌, refl, ◌∙◌, ap, sym, true, false, Option, none, some, ◌==◌,
  if◌then◌else◌, keep_if, Dict, lookup, or_else, arith, eq_iff, Bool-cases, Option-cases, inl, inr,
  if_true, if_false, subst, Nodup, keys, contains,
}
use qmtl.Sdk.History.{
  Item, Store, take, is_valid, cache_key, interval_history, recorded, get_interval_data,
  cleanup_lists, cleanup_history, cleanup_expired_data, keep_valid, keep_node,
}

-- The history and the cache hold the same list for a node and an interval.
abbrev pub Agrees : (n i : String) → Store → Type 0
Agrees n i s = interval_history n i s ≡ lookup (cache_key n i) s.in_memory_cache

abbrev non_empty : List Item → Option (List Item)
non_empty [] = none
non_empty (x ∷ xs) = some (x ∷ xs)

or_else-non_empty : (xs : List Item) → or_else [] (non_empty xs) ≡ xs
or_else-non_empty [] = refl
or_else-non_empty (x ∷ xs) = refl

-- What a clean-up leaves of a list.
abbrev remains : ℕ → Option (List Item) → Option (List Item)
remains now none = none
remains now (some items) = non_empty (keep_if (is_valid now) items)

lookup-keep_valid :
    (now : ℕ) (j k : String) (items : List Item) (d : Dict (List Item))
    → (j ≡ k → lookup k d ≡ none)
    → lookup k (keep_valid j (keep_if (is_valid now) items) d)
      ≡ (if j == k then remains now (some items) else lookup k d)
unfolding lookup
lookup-keep_valid now j k items d h = ground (arith, eq_iff j k)

lookup_missing {ℓ} :
    {V : Type ℓ} (k : String) (d : Dict V) → contains k (keys d) ≡ false → lookup k d ≡ none
unfolding lookup
lookup_missing k [] h = refl
lookup_missing k ((j, v) ∷ d) h = ground (arith, lookup_missing k d)

lookup-cleanup_lists :
    (now : ℕ) (k : String) (d : Dict (List Item))
    → Nodup (keys d)
    → lookup k (cleanup_lists now d) ≡ remains now (lookup k d)
unfolding lookup cleanup_lists
lookup-cleanup_lists now k [] u = refl
lookup-cleanup_lists now k ((j, items) ∷ d) u =
    let rest = lookup-cleanup_lists now k d u.1 in
    lookup-keep_valid now j k items (cleanup_lists now d)
      (λ same. ground (arith, lookup_missing k d, rest))
    ∙ ground (arith, rest)

-- The keys of the history and of one node's intervals are distinct, as in every dict.
pub record IsKeyed (n : String) (s : Store) : Type 0 where
  pub cache : Nodup (keys s.in_memory_cache)
  pub nodes : Nodup (keys s.history)
  pub intervals : Nodup (keys (or_else [] (lookup n s.history)))

abbrev opened : String → Option (Dict (List Item)) → Option (List Item)
opened i none = none
opened i (some intervals) = lookup i intervals

opened-keep_node :
    (k j i : String) (v : Dict (List Item)) (d : Dict (Dict (List Item)))
    → (j ≡ k → lookup k d ≡ none)
    → opened i (lookup k (keep_node j v d)) ≡ (if j == k then lookup i v else opened i (lookup k d))
unfolding lookup
opened-keep_node k j i [] d h = ground (arith, eq_iff j k)
opened-keep_node k j i (x ∷ v) d h = ground (arith, eq_iff j k)

keep_node_other :
    (k j : String) (v : Dict (List Item)) (d : Dict (Dict (List Item)))
    → (j == k) ≡ false
    → lookup k (keep_node j v d) ≡ lookup k d
unfolding lookup
keep_node_other k j [] d h = refl
keep_node_other k j (x ∷ v) d h = ground arith

missing-cleanup_history :
    (now : ℕ) (k : String) (d : Dict (Dict (List Item)))
    → lookup k d ≡ none
    → lookup k (cleanup_history now d) ≡ none
unfolding lookup cleanup_history
missing-cleanup_history now k [] h = refl
missing-cleanup_history now k ((j, v) ∷ d) h = ground (
  arith,
  missing-cleanup_history now k d,
  keep_node_other k j (cleanup_lists now v) (cleanup_history now d),
)

opened-cleanup_history :
    (now : ℕ) (k i : String) (d : Dict (Dict (List Item)))
    → Nodup (keys d)
    → Nodup (keys (or_else [] (lookup k d)))
    → opened i (lookup k (cleanup_history now d)) ≡ remains now (opened i (lookup k d))
unfolding lookup cleanup_history
opened-cleanup_history now k i [] u w = refl
opened-cleanup_history now k i ((j, v) ∷ d) u w =
    opened-keep_node k j i (cleanup_lists now v) (cleanup_history now d)
      (λ same. missing-cleanup_history now k d (lookup_missing k d (ground (arith, eq_iff j k))))
    ∙ elim (Bool-cases (j == k)) [
      | inl e ↦
          let keyed : Nodup (keys v) =
            subst (λ o. Nodup (keys (or_else [] o))) (if_true _ (some v) (lookup k d) e) w in
          ground (arith, lookup-cleanup_lists now i v keyed)
      | inr e ↦
          let keyed : Nodup (keys (or_else [] (lookup k d))) =
            subst (λ o. Nodup (keys (or_else [] o))) (if_false _ (some v) (lookup k d) e) w in
          ground (arith, opened-cleanup_history now k i d u.1 keyed)
    ]

still_valid :
    (now later : ℕ) (item : Item)
    → now ≤ later
    → is_valid later item ≡ true
    → is_valid now item ≡ true
still_valid now later item le h = ground arith

keep_if-later :
    (now later : ℕ) (items : List Item)
    → now ≤ later
    → keep_if (is_valid later) (keep_if (is_valid now) items) ≡ keep_if (is_valid later) items
keep_if-later now later [] le = refl
keep_if-later now later (x ∷ xs) le =
    ground (arith, keep_if-later now later xs le, still_valid now later x le)

remains-later :
    (now later : ℕ) (o : Option (List Item))
    → now ≤ later
    → keep_if (is_valid later) (or_else [] (remains now o))
      ≡ keep_if (is_valid later) (or_else [] o)
remains-later now later none le = refl
remains-later now later (some items) le =
    ap (keep_if (is_valid later)) (or_else-non_empty (keep_if (is_valid now) items))
    ∙ keep_if-later now later items le

recorded-Agrees :
    (n i : String) (s : Store) → Agrees n i s → recorded n i s ≡ or_else [] (interval_history n i s)
recorded-Agrees n i s a = ground arith

interval_history-opened :
    (n i : String) (s : Store) → interval_history n i s ≡ opened i (lookup n s.history)
interval_history-opened n i s = ground (arith, Option-cases (lookup n s.history))

-- A clean-up is never seen by the reads of a node and interval for which the history and the cache
-- agree: at that time or later they give the same items as without it, and the two still agree.
pub get_interval_data-cleanup_expired_data :
    (now later : ℕ) (n i : String) (limit : ℕ) (s : Store)
    → now ≤ later
    → IsKeyed n s
    → Agrees n i s
    → Agrees n i (cleanup_expired_data now s)
      × (get_interval_data later n i limit (cleanup_expired_data now s)
          ≡ get_interval_data later n i limit s)
unfolding cleanup_expired_data get_interval_data
get_interval_data-cleanup_expired_data now later n i limit s le u a =
    let s' = cleanup_expired_data now s in
    let kept : interval_history n i s' ≡ remains now (interval_history n i s) =
      interval_history-opened n i s'
      ∙ opened-cleanup_history now n i s.history u.nodes u.intervals
      ∙ ap (remains now) (sym (interval_history-opened n i s)) in
    let agree : Agrees n i s' =
      kept
      ∙ ap (remains now) a
      ∙ sym (lookup-cleanup_lists now (cache_key n i) s.in_memory_cache u.cache) in
    let same : keep_if (is_valid later) (recorded n i s')
        ≡ keep_if (is_valid later) (recorded n i s) =
      ap (keep_if (is_valid later)) (recorded-Agrees n i s' agree ∙ ap (or_else []) kept)
      ∙ remains-later now later (interval_history n i s) le
      ∙ ap (keep_if (is_valid later)) (sym (recorded-Agrees n i s a)) in
    (agree, ap (take limit) same)
