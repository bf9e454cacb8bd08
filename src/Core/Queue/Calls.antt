-- ===== src/Core/Queue/Calls.antt =====
-- The calls of the queue, and what they push and hand out.
use qmtl.Base.{
  count, ℕ, suc, String, List, [], ◌∷◌, ◌++◌, ◌≡◌, refl, ap, Bool, true, not, ◌&&◌, ◌==◌,
  if◌then◌else◌, ltb, arith, eq_iff, inl, inr, ◌⊎◌,
}
use qmtl.Core.Queue.{Popped, popped, nothing, waits, without}

-- The calls that change the server's state.
pub data Call : Type 0 where
  push_call : String → Call
  pop_call : (timeout : ℕ) → Call
  complete_call : (work_id result : String) → (ttl : ℕ) → (now : String) → Call

-- How often the calls push an item.
abbrev pub pushes : String → List Call → ℕ
pushes x [] = 0
pushes x (push_call item ∷ cs) = if item == x then suc (pushes x cs) else pushes x cs
pushes x (pop_call t ∷ cs) = pushes x cs
pushes x (complete_call w r t now ∷ cs) = pushes x cs

-- What the calls push, in order.
abbrev pub pushed : List Call → List String
pushed [] = []
pushed (push_call item ∷ cs) = item ∷ pushed cs
pushed (pop_call t ∷ cs) = pushed cs
pushed (complete_call w r t now ∷ cs) = pushed cs

-- What a pop hands out.
abbrev pub handed : Popped → List String → List String
handed (popped x) xs = x ∷ xs
handed nothing xs = xs
handed waits xs = xs

-- The call does not complete the item, and gives its results a time to live.
abbrev pub spares : String → Call → Bool
spares x (push_call item) = true
spares x (pop_call t) = true
spares x (complete_call w r t now) = not (w == x) && ltb 0 t

pub count-without :
    (x v : String) (xs : List String) → count x (without v xs) ≡ (if v == x then 0 else count x xs)
count-without x v [] = ground arith
count-without x v (z ∷ xs) =
    ground (arith, count-without x v xs, eq_iff z v, eq_iff v x, eq_iff z x)

pub snoc_cases :
    (xs : List String) → (xs ≡ []) ⊎ ((ys : List String) × (y : String) × (xs ≡ ys ++ y ∷ []))
snoc_cases [] = inl refl
snoc_cases (x ∷ xs) = elim (snoc_cases xs) [
  | inl e ↦ inr ([], x, ap (λ r. x ∷ r) e)
  | inr (ys, y, e) ↦ inr (x ∷ ys, y, ap (λ r. x ∷ r) e)
]
