-- ===== src/Base/Orders.antt =====
-- Orders in which each name comes once and after others, and the lengths of lists of distinct names.
use Prim.Native.Nat.{suc, ◌≤◌}
use Prim.Native.String.{String}
use mathlib.Core.Path.{◌≡◌, refl}
use mathlib.Core.Bool.{true, false}
use mathlib.Core.List.{List, [], ◌∷◌, ◌++◌}
use native.Mathlib.Omega.{arith}
use text.Mathlib.TextEquality.{eq_iff}
use text.Mathlib.TextPositions.{eq_refl}
use qmtl.Base.Lists.{contains, contains-append, contains-remove_ne, remove, length, Nodup}

-- The name is new, and its upstreams have all been seen.
pub record Follows (up : String → List String) (seen : List String) (x : String) : Type 0 where
  pub is_new : contains x seen ≡ false
  pub upstreams_seen : (d : String) → contains d (up x) ≡ true → contains d seen ≡ true

-- Each name comes once, and after all of its upstreams.
abbrev pub IsOrderedBy : (String → List String) → List String → List String → Type 0
IsOrderedBy up seen [] = Unit
IsOrderedBy up seen (x ∷ xs) = Follows up seen x × IsOrderedBy up (x ∷ seen) xs

pub IsOrderedBy-snoc :
    (up : String → List String) (seen xs : List String) (x : String)
    → IsOrderedBy up seen xs
    → Follows up (xs ++ seen) x
    → IsOrderedBy up seen (xs ++ x ∷ [])
IsOrderedBy-snoc up seen [] x h f = (f, tt)
IsOrderedBy-snoc up seen (y ∷ xs) x h f = (
  h.0,
  IsOrderedBy-snoc up (y ∷ seen) xs x h.1 (record {
    is_new = ground (arith, f.is_new, contains-append x xs (y ∷ seen), contains-append x xs seen);
    upstreams_seen = λ d given. ground (
      arith,
      f.upstreams_seen d given,
      contains-append d xs (y ∷ seen),
      contains-append d xs seen,
    );
  }),
)

length-remove :
    (x : String) (ys : List String) → contains x ys ≡ true → suc (length (remove x ys)) ≡ length ys
length-remove x [] h = absurd (ground arith)
length-remove x (y ∷ ys) h = ground (arith, length-remove x ys)

-- Distinct names that all stand in a list are not more than the list is long.
pub length_le_of_subset :
    (xs ys : List String)
    → Nodup xs
    → ((x : String) → contains x xs ≡ true → contains x ys ≡ true)
    → length xs ≤ length ys
length_le_of_subset [] ys u h = omega arith
length_le_of_subset (x ∷ xs) ys u h =
    let rest =
      length_le_of_subset xs (remove x ys) u.1
        (λ y given. ground (arith, h y, contains-remove_ne x y ys, u.0, eq_iff x y)) in
    ground (arith, rest, length-remove x ys, h x, eq_refl x)

IsOrderedBy-new :
    (up : String → List String) (seen xs : List String) (x : String)
    → IsOrderedBy up seen xs
    → contains x seen ≡ true
    → contains x xs ≡ false
IsOrderedBy-new up seen [] x h given = refl
IsOrderedBy-new up seen (y ∷ xs) x h given =
    let later = IsOrderedBy-new up (y ∷ seen) xs x h.1 (ground arith) in
    let new = h.0 in ground (arith, new.is_new, eq_iff y x)

pub IsOrderedBy-Nodup :
    (up : String → List String) (seen xs : List String) → IsOrderedBy up seen xs → Nodup xs
IsOrderedBy-Nodup up seen [] h = tt
IsOrderedBy-Nodup up seen (x ∷ xs) h = (
  IsOrderedBy-new up (x ∷ seen) xs x h.1 (ground (arith, eq_refl x)),
  IsOrderedBy-Nodup up (x ∷ seen) xs h.1,
)

pub IsOrderedBy-same :
    (up up' : String → List String) (seen xs : List String)
    → ((k : String) → up k ≡ up' k)
    → IsOrderedBy up seen xs
    → IsOrderedBy up' seen xs
IsOrderedBy-same up up' seen [] same h = tt
IsOrderedBy-same up up' seen (x ∷ xs) same h =
    let first = h.0 in
    (
      record {
        is_new = first.is_new;
        upstreams_seen = λ d given. first.upstreams_seen d (rw (same x) given);
      },
      IsOrderedBy-same up up' (x ∷ seen) xs same h.1,
    )
