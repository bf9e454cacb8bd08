-- ===== src/Base/Assoc.antt =====
-- A Python dict with text keys: an association list in insertion order.
use Prim.Native.String.{String}
use mathlib.Core.Path.{◌≡◌, refl}
use mathlib.Core.Bool.{Bool, true, false, ◌||◌}
use mathlib.Core.Option.{Option, none, some}
use mathlib.Core.List.{List, [], ◌∷◌}
use native.Mathlib.Omega.{arith}
use text.Mathlib.Text.{◌==◌}
use text.Mathlib.TextEquality.{eq_iff}
use qmtl.Base.Tests.{if◌then◌else◌}
use qmtl.Base.Lists.{contains, length, Nodup}

abbrev pub Dict {ℓ} : Type ℓ → Type ℓ
Dict V = List (String × V)

module _ {ℓ} {V : Type ℓ} where
  -- `d.get(k)`
  unfoldable pub lookup : String → Dict V → Option V
  lookup k [] = none
  lookup k ((j, v) ∷ d) = if j == k then some v else lookup k d

  -- `d[k] = v`: a key that is there keeps its place.
  unfoldable pub insert : String → V → Dict V → Dict V
  insert k v [] = (k, v) ∷ []
  insert k v ((j, w) ∷ d) = if j == k then (j, v) ∷ d else (j, w) ∷ insert k v d

  -- `del d[k]` for a key that is there
  unfoldable pub erase : String → Dict V → Dict V
  erase k [] = []
  erase k ((j, w) ∷ d) = let rest = erase k d in if j == k then rest else (j, w) ∷ rest

  abbrev pub is_some : Option V → Bool
  is_some none = false
  is_some (some v) = true

  -- `k in d`
  abbrev pub has_key : String → Dict V → Bool
  has_key k d = is_some (lookup k d)

  -- `d.get(k, v)`
  abbrev pub or_else : V → Option V → V
  or_else v none = v
  or_else v (some w) = w

  -- `d.keys()` and `d.values()`
  abbrev pub keys : Dict V → List String
  keys [] = []
  keys ((j, w) ∷ d) = j ∷ keys d

  abbrev pub values : Dict V → List V
  values [] = []
  values ((j, w) ∷ d) = w ∷ values d

  pub lookup-insert :
      (k j : String) (v : V) (d : Dict V)
      → lookup j (insert k v d) ≡ (if k == j then some v else lookup j d)
  unfolding lookup insert
  lookup-insert k j v [] = refl
  lookup-insert k j v ((i, w) ∷ d) =
      ground (arith, eq_iff k j, eq_iff i k, eq_iff i j, lookup-insert k j v d)

  pub lookup-erase :
      (k j : String) (d : Dict V) → lookup j (erase k d) ≡ (if k == j then none else lookup j d)
  unfolding lookup erase
  lookup-erase k j [] = ground arith
  lookup-erase k j ((i, w) ∷ d) =
      ground (arith, eq_iff k j, eq_iff i k, eq_iff i j, lookup-erase k j d)

  pub has_key-keys : (k : String) (d : Dict V) → has_key k d ≡ contains k (keys d)
  unfolding lookup
  has_key-keys k [] = refl
  has_key-keys k ((j, w) ∷ d) = ground (arith, has_key-keys k d)

  pub length-keys : (d : Dict V) → length (keys d) ≡ length d
  length-keys [] = refl
  length-keys ((j, w) ∷ d) = ground (arith, length-keys d)

pub contains-keys-insert :
    {V : Type 0} (k v : String) (w : V) (d : Dict V)
    → contains v (keys (insert k w d)) ≡ ((k == v) || contains v (keys d))
contains-keys-insert k v w d =
    ground (arith, has_key-keys v d, has_key-keys v (insert k w d), lookup-insert k v w d)

pub Nodup-keys-insert :
    {V : Type 0} (k : String) (w : V) (d : Dict V) → Nodup (keys d) → Nodup (keys (insert k w d))
unfolding insert
Nodup-keys-insert k w [] u = (refl, tt)
Nodup-keys-insert k w ((j, v) ∷ d) u =
    ground
      (arith, Nodup-keys-insert k w d u.1, contains-keys-insert k j w d, eq_iff j k, eq_iff k j)
