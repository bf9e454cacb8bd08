-- ===== src/Registry/Links.antt =====
-- The dicts of lists in registry/services/node/memory_impl.py: `_node_strategy_map` and
-- `_strategy_node_map` are both changed by these three steps.
pub mod Laws
use qmtl.Base.{
  String, List, [], ◌∷◌, ◌++◌, Bool, true, false, ◌&&◌, Option, if◌then◌else◌, Dict, lookup, insert,
  erase, has_key, or_else, contains, remove,
}

abbrev pub Links : Type 0
Links = Dict (List String)

-- The list under a key, empty where the key is missing.
abbrev pub at : String → Links → List String
at k m = or_else [] (lookup k m)

-- A missing key gets an empty list; then the value is appended unless it is there.
unfoldable pub link : String → String → Links → Links
link k v m =
    let present = (if has_key k m then m else insert k [] m) in
    if contains v (at k present) then present else insert k (at k present ++ v ∷ []) present

abbrev is_empty : List String → Bool
is_empty [] = true
is_empty (x ∷ xs) = false

-- The value is removed where it is there, and then the key, if its list is empty.
unfoldable pub unlink : String → String → Links → Links
unlink k v m =
    if has_key k m && contains v (at k m)
    then (let rest = remove v (at k m) in
        if is_empty rest then erase k (insert k rest m) else insert k rest m)
    else m

-- The value is removed from the list under each of the keys; lists that end up empty stay.
unfoldable pub unlink_all : String → List String → Links → Links
unlink_all v [] m = m
unlink_all v (k ∷ ks) m =
    unlink_all v ks
      (if has_key k m && contains v (at k m) then insert k (remove v (at k m)) m else m)
