-- ===== src/Base/Lists.antt =====
-- Lists of names: Python's `in`, `remove` and `all`, with the laws that the components share.
use Prim.Native.Nat.{ℕ, suc, ◌+◌}
use Prim.Native.String.{String}
use mathlib.Core.Path.{◌≡◌, refl}
use mathlib.Core.Bool.{Bool, true, false, not, ◌&&◌, ◌||◌}
use mathlib.Core.List.{List, [], ◌∷◌, ◌++◌}
use native.Mathlib.Omega.{arith}
use text.Mathlib.Text.{◌==◌}
use text.Mathlib.TextEquality.{eq_iff}
use qmtl.Base.Tests.{if◌then◌else◌, nat_eq}

module _ {ℓ} {A : Type ℓ} where
  abbrev pub length : List A → ℕ
  length [] = 0
  length (x ∷ xs) = suc (length xs)

  -- `any(p(x) for x in xs)`
  abbrev pub any : (A → Bool) → List A → Bool
  any p [] = false
  any p (x ∷ xs) = p x || any p xs

  -- `all(p(x) for x in xs)`
  abbrev pub all : (A → Bool) → List A → Bool
  all p [] = true
  all p (x ∷ xs) = p x && all p xs

  -- `[x for x in xs if p(x)]`
  abbrev pub keep_if : (A → Bool) → List A → List A
  keep_if p [] = []
  keep_if p (x ∷ xs) = let rest = keep_if p xs in if p x then x ∷ rest else rest

  pub any-append : (p : A → Bool) (xs ys : List A) → any p (xs ++ ys) ≡ (any p xs || any p ys)
  any-append p [] ys = refl
  any-append p (x ∷ xs) ys = ground (arith, any-append p xs ys)

  pub keep_if_cong :
      (p q : A → Bool) (xs : List A) → ((x : A) → p x ≡ q x) → keep_if p xs ≡ keep_if q xs
  keep_if_cong p q [] h = refl
  keep_if_cong p q (x ∷ xs) h = ground (arith, h x, keep_if_cong p q xs h)

  pub length-append : (xs ys : List A) → length (xs ++ ys) ≡ length xs + length ys
  length-append [] ys = omega arith
  length-append (x ∷ xs) ys = omega (arith, length-append xs ys)

-- `x in xs`
abbrev pub contains : String → List String → Bool
contains x [] = false
contains x (y ∷ ys) = (y == x) || contains x ys

-- `xs.remove(x)`: the first occurrence goes.
abbrev pub remove : String → List String → List String
remove x [] = []
remove x (y ∷ ys) = if y == x then ys else y ∷ remove x ys

abbrev pub Nodup : List String → Type 0
Nodup [] = Unit
Nodup (x ∷ xs) = (contains x xs ≡ false) × Nodup xs

pub contains-append :
    (x : String) (xs ys : List String) → contains x (xs ++ ys) ≡ (contains x xs || contains x ys)
contains-append x [] ys = refl
contains-append x (y ∷ xs) ys = ground (arith, contains-append x xs ys)

pub contains-remove_ne :
    (x y : String) (xs : List String) → (x == y) ≡ false → contains y (remove x xs) ≡ contains y xs
contains-remove_ne x y [] h = refl
contains-remove_ne x y (z ∷ xs) h =
    ground (arith, contains-remove_ne x y xs, eq_iff z x, eq_iff z y, eq_iff x y)

pub contains-remove_self :
    (x : String) (xs : List String) → Nodup xs → contains x (remove x xs) ≡ false
contains-remove_self x [] h = refl
contains-remove_self x (z ∷ xs) h = ground (arith, contains-remove_self x xs, eq_iff z x)

pub Nodup-remove : (x : String) (xs : List String) → Nodup xs → Nodup (remove x xs)
Nodup-remove x [] h = tt
Nodup-remove x (z ∷ xs) h =
    ground (arith, Nodup-remove x xs h.1, contains-remove_ne x z xs, eq_iff z x, eq_iff x z)

pub Nodup-snoc :
    (x : String) (xs : List String) → contains x xs ≡ false → Nodup xs → Nodup (xs ++ x ∷ [])
Nodup-snoc x [] h n = (refl, tt)
Nodup-snoc x (z ∷ xs) h n = (
  ground (arith, contains-append z xs (x ∷ []), eq_iff z x, eq_iff x z),
  Nodup-snoc x xs (ground arith) n.1,
)

-- How often a name stands in a list.
abbrev pub count : String → List String → ℕ
count v [] = 0
count v (x ∷ xs) = if x == v then suc (count v xs) else count v xs

pub count-append : (x : String) (xs ys : List String) → count x (xs ++ ys) ≡ count x xs + count x ys
count-append x [] ys = omega arith
count-append x (z ∷ xs) ys = ground (arith, count-append x xs ys)

contains-count : (x : String) (xs : List String) → contains x xs ≡ not (nat_eq (count x xs) 0)
contains-count x [] = refl
contains-count x (z ∷ xs) = ground (arith, contains-count x xs)

pub contains_of_count :
    (x y : String) (xs ys : List String) → count x xs ≡ count y ys → contains x xs ≡ contains y ys
contains_of_count x y xs ys h = ground (arith, contains-count x xs, contains-count y ys)
