-- ===== src/Sdk/History.antt =====
-- sdk/execution/local.py: the results that the local engine keeps for each node and interval, in the
-- dict `history` and in the cache `_in_memory_cache`, with their expiry and their bounds. Times are
-- whole seconds.
pub mod Expiry
pub mod Cleanup
pub mod Bounds
use Prim.Native.String
use Prim.Native.String.{◌++◌}
use text.Mathlib.Text.{starts_with}
use qmtl.Sdk.Value.{Value}
use qmtl.Base.{
  ℕ, zero, suc, ◌+◌, String, List, [], ◌∷◌, Bool, true, false, not, ◌||◌, Option, none, some, ◌==◌,
  if◌then◌else◌, ltb, keep_if, length, Dict, lookup, insert, erase, has_key, or_else,
}

pub record Item : Type 0 where
  pub timestamp : ℕ
  pub value : Value
  pub expires_at : Option ℕ

pub record Store : Type 0 where
  pub in_memory_cache : Dict (List Item)
  pub history : Dict (Dict (List Item))

-- `items[:n]`
abbrev pub take : ℕ → List Item → List Item
take zero items = []
take (suc n) [] = []
take (suc n) (i ∷ is) = i ∷ take n is

abbrev pub cache_key : (node_id interval : String) → String
cache_key node_id interval = node_id ++ ":" ++ interval

-- `not item.get("expires_at") or item["expires_at"] > current_time`
abbrev expiry_valid : ℕ → Option ℕ → Bool
expiry_valid now none = true
expiry_valid now (some zero) = true
expiry_valid now (some (suc t)) = ltb now (suc t)

abbrev pub is_valid : ℕ → Item → Bool
is_valid now item = expiry_valid now item.expires_at

-- `history[node_id][interval]`, if there is such an entry.
abbrev pub interval_history : (node_id interval : String) → Store → Option (List Item)
interval_history node_id interval s = elim (lookup node_id s.history) [
  | none ↦ none
  | some intervals ↦ lookup interval intervals
]

-- The list that `get_interval_data` reads.
abbrev pub recorded : (node_id interval : String) → Store → List Item
recorded node_id interval s = elim (interval_history node_id interval s) [
  | none ↦ or_else [] (lookup (cache_key node_id interval) s.in_memory_cache)
  | some items ↦ items
]

unfoldable pub get_interval_data :
    (now : ℕ) → (node_id interval : String) → (limit : ℕ) → Store → List Item
get_interval_data now node_id interval limit s =
    take limit (keep_if (is_valid now) (recorded node_id interval s))

-- A lifetime of 0 expires at once; none never does.
abbrev pub expiry : ℕ → Option ℕ → Option ℕ
expiry now none = none
expiry now (some ttl) = some (now + ttl)

-- `items.insert(0, new_item)` and the cut at the maximum, which is a cut in either case.
abbrev pub record_item : (max_items : ℕ) → Item → List Item → List Item
record_item max_items item items =
    if ltb max_items (suc (length items)) then take max_items (item ∷ items) else item ∷ items

unfoldable pub save_interval_data :
    (now : ℕ)
    → (node_id interval : String) → (value : Value) → (max_items : ℕ) → (ttl : Option ℕ) → Store
    → Store
save_interval_data now node_id interval value max_items ttl s =
    let item : Item = record { timestamp = now; value = value; expires_at = expiry now ttl } in
    let key = cache_key node_id interval in
    let cached = or_else [] (lookup key s.in_memory_cache) in
    let intervals = or_else [] (lookup node_id s.history) in
    let items = or_else [] (lookup interval intervals) in
    record {
      in_memory_cache = insert key (record_item max_items item cached) s.in_memory_cache;
      history =
          insert node_id (insert interval (record_item max_items item items) intervals) s.history;
    }

-- A list is replaced by its valid items, or goes with its key where there are none.
abbrev keep_valid : String → List Item → Dict (List Item) → Dict (List Item)
keep_valid k [] d = d
keep_valid k (i ∷ is) d = (k, i ∷ is) ∷ d

unfoldable pub cleanup_lists : ℕ → Dict (List Item) → Dict (List Item)
cleanup_lists now [] = []
cleanup_lists now ((k, items) ∷ d) =
    keep_valid k (keep_if (is_valid now) items) (cleanup_lists now d)

abbrev keep_node : String → Dict (List Item) → Dict (Dict (List Item)) → Dict (Dict (List Item))
keep_node k [] d = d
keep_node k (i ∷ is) d = (k, i ∷ is) ∷ d

unfoldable pub cleanup_history : ℕ → Dict (Dict (List Item)) → Dict (Dict (List Item))
cleanup_history now [] = []
cleanup_history now ((k, intervals) ∷ d) =
    keep_node k (cleanup_lists now intervals) (cleanup_history now d)

unfoldable pub cleanup_expired_data : ℕ → Store → Store
cleanup_expired_data now s = record {
  in_memory_cache = cleanup_lists now s.in_memory_cache;
  history = cleanup_history now s.history;
}

-- `s.endswith(suffix)`
unfoldable pub ends_with : String → String → Bool
ends_with String.[] suffix = suffix == ""
ends_with (String.◌∷◌ c s) suffix = (String.◌∷◌ c s == suffix) || ends_with s suffix

-- The entries whose key does not pass the test.
abbrev pub drop_keys : (String → Bool) → Dict (List Item) → Dict (List Item)
drop_keys p [] = []
drop_keys p ((k, v) ∷ d) = let rest = drop_keys p d in if p k then rest else (k, v) ∷ rest

abbrev pub drop_interval : String → Dict (Dict (List Item)) → Dict (Dict (List Item))
drop_interval interval [] = []
drop_interval interval ((k, intervals) ∷ d) =
    (k, erase interval intervals) ∷ drop_interval interval d

abbrev pub drop_entry :
    (node_id interval : String) → Dict (Dict (List Item)) → Dict (Dict (List Item))
drop_entry node_id interval history = elim (lookup node_id history) [
  | none ↦ history
  | some intervals ↦
      if has_key interval intervals
      then insert node_id (erase interval intervals) history
      else history
]

unfoldable pub clear_cache : (node_id interval : Option String) → Store → Store
clear_cache none none s = record { in_memory_cache = []; history = [] }
clear_cache none (some interval) s = record {
  in_memory_cache = drop_keys (λ k. ends_with k (":" ++ interval)) s.in_memory_cache;
  history = drop_interval interval s.history;
}
clear_cache (some node_id) none s = record {
  in_memory_cache = drop_keys (λ k. starts_with k (node_id ++ ":")) s.in_memory_cache;
  history = erase node_id s.history;
}
clear_cache (some node_id) (some interval) s = record {
  in_memory_cache = erase (cache_key node_id interval) s.in_memory_cache;
  history = drop_entry node_id interval s.history;
}
