-- ===== src/Sdk/Pipeline/Selectors.antt =====
-- sdk/pipeline.py: `apply_selectors`, the chain of selectors on the nodes that a query has found.
pub mod Chain
use qmtl.Base.{
  ℕ, zero, suc, String, List, [], ◌∷◌, ◌++◌, Bool, true, false, not, ◌&&◌, Option, none, some, ◌==◌,
  if◌then◌else◌, any, all, leb, min, nat_eq, keep_if, length, Dict, lookup,
}
use qmtl.Sdk.Pipeline.{
  Scalar, text, number, Setting, Intervals, Legacy, scalar, nested, ProcessingNode,
}
use qmtl.Sdk.Pipeline.Query.{is_value, direct_is}

-- The integers: `pos n` is n, and `negsuc n` is -(n + 1). The two sizes of a selector are not checked.
pub data ℤ : Type 0 where
  pos negsuc : ℕ → ℤ

-- A value that an attribute of a node can be compared with.
pub data Attribute : Type 0 where
  word : String → Attribute
  words : List String → Attribute

-- An entry of `filter_meta`: under `stream_settings` a dict that may have `intervals`, under
-- `interval_settings` a dict, and under any other key the value of an attribute.
pub data Wanted : Type 0 where
  stream : Option (Dict (Dict Scalar)) → Wanted
  interval : Dict Scalar → Wanted
  attribute : (name : String) → Attribute → Wanted

pub record Selector : Type 0 where
  pub mode : String
  pub batch_size : Option ℤ
  pub sample_size : Option ℤ
  pub filter_meta : List Wanted

abbrev number_of : Option ℕ → Option Scalar
number_of none = none
number_of (some n) = some (number n)

-- `getattr(interval_obj, attr)`; a dict has none of the attributes.
abbrev setting_attribute : String → Setting → Option Scalar
setting_attribute k s =
    if not s.is_object
    then none
    else if k == "interval"
    then s.interval
    else if k == "period"
    then s.period
    else if k == "max_history"
    then number_of s.max_history
    else none

abbrev attributes_match : Dict Scalar → Setting → Bool
attributes_match [] s = true
attributes_match ((k, v) ∷ d) s = is_value v (setting_attribute k s) && attributes_match d s

abbrev intervals_match : Dict (Dict Scalar) → Intervals → Bool
intervals_match [] have = true
intervals_match ((k, wanted) ∷ d) have =
    let rest = intervals_match d have in
    elim (lookup k have) [ none ↦ false | some s ↦ attributes_match wanted s && rest ]

abbrev stream_match : Option (Dict (Dict Scalar)) → Option Intervals → Bool
stream_match none settings = true
stream_match (some wanted) none = false
stream_match (some wanted) (some have) = intervals_match wanted have

-- Some interval has the attribute.
abbrev found_in : String → Scalar → Intervals → Bool
found_in k v [] = false
found_in k v ((j, s) ∷ d) = if is_value v (setting_attribute k s) then true else found_in k v d

abbrev all_found : Dict Scalar → Intervals → Bool
all_found [] have = true
all_found ((k, v) ∷ d) have = found_in k v have && all_found d have

abbrev legacy_match : Dict Scalar → Dict Legacy → Bool
legacy_match [] have = true
legacy_match ((k, v) ∷ d) have =
    let rest = legacy_match d have in
    elim (lookup k have) [ none ↦ false | some l ↦ direct_is v l && rest ]

-- A node without the attribute has no entries here.
abbrev if_legacy : Dict Scalar → Dict Legacy → Bool
if_legacy wanted [] = false
if_legacy wanted (l ∷ ls) = legacy_match wanted (l ∷ ls)

abbrev interval_match : Dict Scalar → ProcessingNode → Bool
interval_match wanted node = elim node.stream_settings [
  | none ↦ if_legacy wanted node.interval_settings
  | some have ↦ all_found wanted have
]

module _ {ℓ} {A : Type ℓ} where
  abbrev pub take : ℕ → List A → List A
  take zero xs = []
  take (suc n) [] = []
  take (suc n) (x ∷ xs) = x ∷ take n xs

  abbrev pub drop : ℕ → List A → List A
  drop zero xs = xs
  drop (suc n) [] = []
  drop (suc n) (x ∷ xs) = drop n xs

  -- `[nodes[i : i + size] for i in range(0, len(nodes), size)]`; there are not more batches than nodes.
  abbrev pub batches : ℕ → (size : ℕ) → List A → List (List A)
  batches zero size xs = []
  batches (suc fuel) size [] = []
  batches (suc fuel) size (x ∷ xs) = take size (x ∷ xs) ∷ batches fuel size (drop size (x ∷ xs))

  -- A range with a negative step up to a length is empty.
  abbrev pub batches_by : (size : ℤ) → List A → List (List A)
  batches_by (pos n) xs = batches (length xs) n xs
  batches_by (negsuc n) xs = []

  abbrev pub concat : List (List A) → List A
  concat [] = []
  concat (xs ∷ xss) = xs ++ concat xss

-- `size or 1`
abbrev pub or_one : Option ℤ → ℤ
or_one none = pos 1
or_one (some (pos zero)) = pos 1
or_one (some (pos (suc n))) = pos (suc n)
or_one (some (negsuc n)) = negsuc n

-- `hasattr(node, name) and getattr(node, name) == v` is a parameter.
module _ (attribute_is : String → Attribute → ProcessingNode → Bool) where
  -- The two settings end the loop over the entries.
  abbrev pub match_meta : List Wanted → ProcessingNode → Bool
  match_meta [] node = true
  match_meta (stream wanted ∷ ws) node = stream_match wanted node.stream_settings
  match_meta (interval wanted ∷ ws) node = interval_match wanted node
  match_meta (attribute k v ∷ ws) node =
      let rest = match_meta ws node in if attribute_is k v node then rest else false

infixl 5 ◌>>=◌
abbrev pub ◌>>=◌ : {A B : Type 0} → Option A → (A → Option B) → Option B
none >>= f = none
some a >>= f = f a

-- `random.sample` is a parameter; it gives another list at each call, and raises a `ValueError` for a negative
-- number, here `none`.
module _ (attribute_is : String → Attribute → ProcessingNode → Bool)
    (sample : (call : ℕ) → List ProcessingNode → ℕ → List ProcessingNode) where
  abbrev pub select_random : (call : ℕ) → ℤ → List ProcessingNode → Option (List ProcessingNode)
  select_random i size [] = some []
  select_random i (pos size) (n ∷ ns) = some (sample i (n ∷ ns) (min size (length (n ∷ ns))))
  select_random i (negsuc size) (n ∷ ns) = none

  unfoldable pub apply_selector :
      (call : ℕ) → Selector → List ProcessingNode → Option (List ProcessingNode)
  apply_selector i s nodes =
      if s.mode == "list"
      then some nodes
      else if s.mode == "batch"
      then some (concat (batches_by (or_one s.batch_size) nodes))
      else if s.mode == "random"
      then select_random i (or_one s.sample_size) nodes
      else if s.mode == "filter"
      then some (keep_if (match_meta attribute_is s.filter_meta) nodes)
      else some nodes

  unfoldable pub apply_selectors :
      (call : ℕ) → List Selector → List ProcessingNode → Option (List ProcessingNode)
  apply_selectors i [] nodes = some nodes
  apply_selectors i (s ∷ ss) nodes = do
    selected ← apply_selector i s nodes
    apply_selectors (suc i) ss selected
