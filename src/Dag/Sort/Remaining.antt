-- ===== src/Dag/Sort/Remaining.antt =====
-- What is left to do before a node: its upstreams outside the order so far; and what an order is.
use qmtl.Base.{
  ℕ, zero, suc, ◌+◌, String, List, [], ◌∷◌, ◌++◌, ◌≡◌, refl, true, false, if◌then◌else◌, contains,
  contains-append, count, length, arith, eq_iff,
}

abbrev pub remaining : (upstreams order : List String) → ℕ
remaining [] order = zero
remaining (u ∷ us) order = if contains u order then remaining us order else suc (remaining us order)

-- A new name in the order takes its own occurrences off.
pub remaining-snoc :
    (us order : List String) (c : String)
    → contains c order ≡ false
    → remaining us order ≡ remaining us (order ++ c ∷ []) + count c us
remaining-snoc [] order c h = omega arith
remaining-snoc (u ∷ us) order c h =
    ground
      (arith, remaining-snoc us order c, contains-append u order (c ∷ []), eq_iff c u, eq_iff u c)

pub remaining-nil : (us : List String) → remaining us [] ≡ length us
remaining-nil [] = refl
remaining-nil (u ∷ us) = ground (arith, remaining-nil us)

pub none_remaining :
    (us order : List String) (d : String)
    → remaining us order ≡ zero
    → contains d us ≡ true
    → contains d order ≡ true
none_remaining [] order d h given = absurd (ground arith)
none_remaining (u ∷ us) order d h given = ground (arith, none_remaining us order d, eq_iff u d)

pub remaining-zero :
    (us order : List String)
    → ((d : String) → contains d us ≡ true → contains d order ≡ true)
    → remaining us order ≡ zero
remaining-zero [] order h = refl
remaining-zero (u ∷ us) order h =
    let rest = remaining-zero us order (λ d given. h d (ground arith)) in
    ground (arith, h u, eq_iff u u)
