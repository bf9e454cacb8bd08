-- ===== src/Sdk/History/Bounds.antt =====
-- The lists of the local engine stay within the maximum that the saves give.
use qmtl.Base.{
  ℕ, zero, suc, ◌≤◌, String, List, [], ◌∷◌, ◌≡◌, refl, Bool, true, Option, none, some, leb, ◌&&◌,
  keep_if, length, Dict, lookup, insert, erase, or_else, all, arith, Option-cases, inl, inr,
}
use qmtl.Sdk.Value.{Value}
use qmtl.Sdk.History.{
  Item, Store, take, is_valid, record_item, save_interval_data, cache_key, cleanup_lists,
  cleanup_history, cleanup_expired_data, drop_keys, drop_interval, drop_entry, clear_cache,
  keep_valid, keep_node, expiry,
}

-- The methods that change the store, with the time at which they run.
pub data Call : Type 0 where
  save :
      (now : ℕ) (node_id interval : String) (value : Value) (max_items : ℕ) (ttl : Option ℕ) → Call
  cleanup : (now : ℕ) → Call
  clear : (node_id interval : Option String) → Call

abbrev pub step : Call → Store → Store
step (save now n i v max ttl) s = save_interval_data now n i v max ttl s
step (cleanup now) s = cleanup_expired_data now s
step (clear n i) s = clear_cache n i s

unfoldable pub run : List Call → Store → Store
run [] s = s
run (c ∷ cs) s = run cs (step c s)

abbrev pub empty : Store
empty = record { in_memory_cache = []; history = [] }

-- Every save of the list has a maximum of at most `m`.
abbrev pub within : ℕ → Call → Bool
within m (save now n i v max ttl) = leb max m
within m (cleanup now) = true
within m (clear n i) = true

-- Every list has at most `m` items.
abbrev short : ℕ → Dict (List Item) → Bool
short m [] = true
short m ((k, items) ∷ d) = leb (length items) m && short m d

abbrev short_history : ℕ → Dict (Dict (List Item)) → Bool
short_history m [] = true
short_history m ((k, intervals) ∷ d) = short m intervals && short_history m d

abbrev pub IsBounded : ℕ → Store → Type 0
IsBounded m s = (short m s.in_memory_cache ≡ true) × (short_history m s.history ≡ true)

length-take : (n : ℕ) (items : List Item) → length (take n items) ≤ n
length-take zero items = ground arith
length-take (suc n) [] = ground arith
length-take (suc n) (x ∷ xs) = ground (arith, length-take n xs)

length-record_item :
    (max : ℕ) (item : Item) (items : List Item) → length (record_item max item items) ≤ max
length-record_item max item items = ground (arith, length-take max (item ∷ items))

length-keep_if : (p : Item → Bool) (items : List Item) → length (keep_if p items) ≤ length items
length-keep_if p [] = ground arith
length-keep_if p (x ∷ xs) = ground (arith, length-keep_if p xs)

short-insert :
    (m : ℕ) (k : String) (items : List Item) (d : Dict (List Item))
    → length items ≤ m
    → short m d ≡ true
    → short m (insert k items d) ≡ true
unfolding insert
short-insert m k items [] l h = ground arith
short-insert m k items ((j, v) ∷ d) l h = ground (arith, short-insert m k items d)

short-erase :
    (m : ℕ) (k : String) (d : Dict (List Item)) → short m d ≡ true → short m (erase k d) ≡ true
unfolding erase
short-erase m k [] h = ground arith
short-erase m k ((j, v) ∷ d) h = ground (arith, short-erase m k d)

short-drop_keys :
    (m : ℕ) (p : String → Bool) (d : Dict (List Item))
    → short m d ≡ true
    → short m (drop_keys p d) ≡ true
short-drop_keys m p [] h = ground arith
short-drop_keys m p ((j, v) ∷ d) h = ground (arith, short-drop_keys m p d)

short-keep_valid :
    (m : ℕ) (k : String) (items : List Item) (d : Dict (List Item))
    → length items ≤ m
    → short m d ≡ true
    → short m (keep_valid k items d) ≡ true
short-keep_valid m k [] d l h = h
short-keep_valid m k (x ∷ xs) d l h = ground arith

short-cleanup_lists :
    (m now : ℕ) (d : Dict (List Item)) → short m d ≡ true → short m (cleanup_lists now d) ≡ true
unfolding cleanup_lists
short-cleanup_lists m now [] h = ground arith
short-cleanup_lists m now ((k, items) ∷ d) h =
    short-keep_valid m k (keep_if (is_valid now) items) (cleanup_lists now d)
      (ground (arith, length-keep_if (is_valid now) items))
      (short-cleanup_lists m now d (ground arith))

short_history-insert :
    (m : ℕ) (k : String) (v : Dict (List Item)) (d : Dict (Dict (List Item)))
    → short m v ≡ true
    → short_history m d ≡ true
    → short_history m (insert k v d) ≡ true
unfolding insert
short_history-insert m k v [] l h = ground arith
short_history-insert m k v ((j, w) ∷ d) l h = ground (arith, short_history-insert m k v d)

short_history-lookup :
    (m : ℕ) (k : String) (d : Dict (Dict (List Item)))
    → short_history m d ≡ true
    → short m (or_else [] (lookup k d)) ≡ true
unfolding lookup
short_history-lookup m k [] h = ground arith
short_history-lookup m k ((j, w) ∷ d) h = ground (arith, short_history-lookup m k d)

short_history-keep_node :
    (m : ℕ) (k : String) (v : Dict (List Item)) (d : Dict (Dict (List Item)))
    → short m v ≡ true
    → short_history m d ≡ true
    → short_history m (keep_node k v d) ≡ true
short_history-keep_node m k [] d l h = h
short_history-keep_node m k ((j, w) ∷ v) d l h = ground arith

short_history-cleanup_history :
    (m now : ℕ) (d : Dict (Dict (List Item)))
    → short_history m d ≡ true
    → short_history m (cleanup_history now d) ≡ true
unfolding cleanup_history
short_history-cleanup_history m now [] h = ground arith
short_history-cleanup_history m now ((k, v) ∷ d) h =
    short_history-keep_node m k (cleanup_lists now v) (cleanup_history now d)
      (short-cleanup_lists m now v (ground arith))
      (short_history-cleanup_history m now d (ground arith))

short_history-erase :
    (m : ℕ) (k : String) (d : Dict (Dict (List Item)))
    → short_history m d ≡ true
    → short_history m (erase k d) ≡ true
unfolding erase
short_history-erase m k [] h = ground arith
short_history-erase m k ((j, v) ∷ d) h = ground (arith, short_history-erase m k d)

short_history-drop_interval :
    (m : ℕ) (i : String) (d : Dict (Dict (List Item)))
    → short_history m d ≡ true
    → short_history m (drop_interval i d) ≡ true
short_history-drop_interval m i [] h = ground arith
short_history-drop_interval m i ((k, v) ∷ d) h =
    ground (arith, short_history-drop_interval m i d, short-erase m i v)

short_history-drop_entry :
    (m : ℕ) (n i : String) (d : Dict (Dict (List Item)))
    → short_history m d ≡ true
    → short_history m (drop_entry n i d) ≡ true
short_history-drop_entry m n i d h = elim (Option-cases (lookup n d)) [
  | inl e ↦ ground arith
  | inr (v, e) ↦
      ground (
        arith,
        short_history-lookup m n d,
        short-erase m i v,
        short_history-insert m n (erase i v) d,
      )
]

save-IsBounded :
    (m now : ℕ) (n i : String) (v : Value) (max : ℕ) (ttl : Option ℕ) (s : Store)
    → max ≤ m
    → IsBounded m s
    → IsBounded m (save_interval_data now n i v max ttl s)
unfolding save_interval_data
save-IsBounded m now n i v max ttl s fits b =
    let item : Item = record { timestamp = now; value = v; expires_at = expiry now ttl } in
    let intervals = or_else [] (lookup n s.history) in
    let items = or_else [] (lookup i intervals) in
    let cached = or_else [] (lookup (cache_key n i) s.in_memory_cache) in
    (
      short-insert m (cache_key n i) (record_item max item cached) s.in_memory_cache
          (ground (arith, length-record_item max item cached)) b.0,
      short_history-insert m n (insert i (record_item max item items) intervals) s.history
          (short-insert m i (record_item max item items) intervals
            (ground (arith, length-record_item max item items))
            (short_history-lookup m n s.history b.1))
          b.1,
    )

clear-IsBounded :
    (m : ℕ) (n i : Option String) (s : Store) → IsBounded m s → IsBounded m (clear_cache n i s)
unfolding clear_cache
clear-IsBounded m none none s b = (refl, refl)
clear-IsBounded m none (some i) s b =
    (short-drop_keys m _ s.in_memory_cache b.0, short_history-drop_interval m i s.history b.1)
clear-IsBounded m (some n) none s b =
    (short-drop_keys m _ s.in_memory_cache b.0, short_history-erase m n s.history b.1)
clear-IsBounded m (some n) (some i) s b =
    (short-erase m _ s.in_memory_cache b.0, short_history-drop_entry m n i s.history b.1)

step-IsBounded :
    (m : ℕ) (c : Call) (s : Store) → within m c ≡ true → IsBounded m s → IsBounded m (step c s)
unfolding cleanup_expired_data
step-IsBounded m (save now n i v max ttl) s w b =
    save-IsBounded m now n i v max ttl s (ground arith) b
step-IsBounded m (cleanup now) s w b = (
  short-cleanup_lists m now s.in_memory_cache b.0,
  short_history-cleanup_history m now s.history b.1,
)
step-IsBounded m (clear n i) s w b = clear-IsBounded m n i s b

-- After any calls of the methods that change the store, each list of the cache and of the history is
-- as long at most as the largest maximum among the saves, if the store started within that bound.
pub run-IsBounded :
    (m : ℕ) (cs : List Call) (s : Store)
    → all (within m) cs ≡ true
    → IsBounded m s
    → IsBounded m (run cs s)
unfolding run
run-IsBounded m [] s w b = b
run-IsBounded m (c ∷ cs) s w b =
    run-IsBounded m cs (step c s) (ground arith) (step-IsBounded m c s (ground arith) b)
