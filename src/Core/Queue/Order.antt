-- ===== src/Core/Queue/Order.antt =====
-- The queue is first in, first out.
use qmtl.Base.{
  String, List, [], ◌∷◌, ◌++◌, ◌≡◌, refl, ◌∙◌, ap, ap₂, sym, false, ◌==◌, if_true, if_false,
  eq_refl,
}
use qmtl.Core.Queue.{Popped, popped, Redis, IsLawful, Json, Keys, push, pop}

abbrev pub reverse : List String → List String
reverse [] = []
reverse (x ∷ xs) = reverse xs ++ x ∷ []

pub snoc_append :
    (xs : List String) (x : String) (ys : List String) → (xs ++ x ∷ []) ++ ys ≡ xs ++ x ∷ ys
snoc_append [] x ys = refl
snoc_append (z ∷ xs) x ys = ap (λ r. z ∷ r) (snoc_append xs x ys)

pub reverse-snoc : (xs : List String) (x : String) → reverse (xs ++ x ∷ []) ≡ x ∷ reverse xs
reverse-snoc [] x = refl
reverse-snoc (z ∷ xs) x = ap (λ r. r ++ z ∷ []) (reverse-snoc xs x)

pub append-nil : (xs : List String) → xs ++ [] ≡ xs
append-nil [] = refl
append-nil (x ∷ xs) = ap (λ r. x ∷ r) (append-nil xs)

module _ (R : Redis) (lawful : IsLawful R) (json : Json) (keys : Keys)
    (apart : (keys.queue_key == keys.processing_key) ≡ false) where
  -- A push of each item in turn.
  unfoldable pub push_all : List String → R.State → R.State
  push_all [] s = s
  push_all (x ∷ xs) s = push_all xs (push R json keys x s)

  -- One pop for each of the items, and what they returned.
  unfoldable pub pop_each : List String → R.State → List Popped × R.State
  pop_each [] s = ([], s)
  pop_each (x ∷ xs) s =
      let (taken, s') = pop R json keys 0 s in let (rest, t) = pop_each xs s' in (taken ∷ rest, t)

  abbrev pub all_taken : List String → List Popped
  all_taken [] = []
  all_taken (x ∷ xs) = popped x ∷ all_taken xs

  items-push_all :
      (xs : List String) (s : R.State)
      → R.items keys.queue_key (push_all xs s) ≡ reverse xs ++ R.items keys.queue_key s
  unfolding push_all push
  items-push_all [] s = refl
  items-push_all (x ∷ xs) s =
      items-push_all xs (R.lpush keys.queue_key x s)
      ∙ ap (λ q. reverse xs ++ q)
          (lawful.items-lpush keys.queue_key x keys.queue_key s
            ∙ if_true _ _ _ (eq_refl keys.queue_key))
      ∙ sym (snoc_append (reverse xs) x (R.items keys.queue_key s))

  items-push_all_other :
      (xs : List String) (s : R.State)
      → R.items keys.processing_key (push_all xs s) ≡ R.items keys.processing_key s
  unfolding push_all push
  items-push_all_other [] s = refl
  items-push_all_other (x ∷ xs) s =
      items-push_all_other xs (R.lpush keys.queue_key x s)
      ∙ lawful.items-lpush keys.queue_key x keys.processing_key s
      ∙ if_false _ _ _ apart

  pop_each_lem :
      (xs : List String) (s : R.State)
      → R.items keys.queue_key s ≡ reverse xs
      → ((pop_each xs s).0 ≡ all_taken xs)
        × (R.items keys.queue_key (pop_each xs s).1 ≡ [])
        × (R.items keys.processing_key (pop_each xs s).1
            ≡ reverse xs ++ R.items keys.processing_key s)
  unfolding pop_each pop
  pop_each_lem [] s h = (refl, h, refl)
  pop_each_lem (x ∷ xs) s h =
      let qk = keys.queue_key in
      let pk = keys.processing_key in
      let s' = (R.brpoplpush qk pk 0 s).1 in
      let moved = λ (j : String). lawful.items-brpoplpush qk pk j x (reverse xs) 0 s h apart in
      let (all, empty, held) = pop_each_lem xs s' (moved qk ∙ if_true _ _ _ (eq_refl qk)) in
      let kept : R.items pk s' ≡ x ∷ R.items pk s =
        moved pk ∙ if_false _ _ _ apart ∙ if_true _ _ _ (eq_refl pk) in
      (
        ap₂ ◌∷◌ (lawful.brpoplpush-last qk pk x (reverse xs) 0 s h) all,
        empty,
        held ∙ ap (λ q. reverse xs ++ q) kept ∙ sym (snoc_append (reverse xs) x (R.items pk s)),
      )

  -- Items pushed onto an empty queue come back from as many pops in the order of the pushes; then the
  -- queue is empty and the processing list holds them, the newest first, before what it held.
  pub pop_each-push_all :
      (xs : List String) (s : R.State)
      → R.items keys.queue_key s ≡ []
      → let (taken, t) = pop_each xs (push_all xs s) in
        (taken ≡ all_taken xs)
        × (R.items keys.queue_key t ≡ [])
        × (R.items keys.processing_key t ≡ reverse xs ++ R.items keys.processing_key s)
  pop_each-push_all xs s empty =
      let (all, none_left, held) =
        pop_each_lem xs (push_all xs s)
          (items-push_all xs s ∙ ap (λ q. reverse xs ++ q) empty ∙ append-nil (reverse xs)) in
      (all, none_left, held ∙ ap (λ q. reverse xs ++ q) (items-push_all_other xs s))
