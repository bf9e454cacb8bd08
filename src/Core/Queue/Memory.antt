-- ===== src/Core/Queue/Memory.antt =====
-- A server that keeps its lists and its hash in memory: it meets the assumptions.
use qmtl.Base.{
  ℕ, nat_eq, count, String, List, [], ◌∷◌, ◌++◌, ◌≡◌, refl, ◌∙◌, ap, false, Option, none, some,
  ◌==◌, if◌then◌else◌, Dict, lookup, insert, or_else, arith, lookup-insert, eq_iff, eq_refl,
}
use qmtl.Core.Queue.{Popped, popped, nothing, waits, Redis, IsLawful, without}

pub record Server : Type 0 where
  pub lists : Dict (List String)
  pub hash : (key field : String) → Option String

abbrev at : String → Server → List String
at k s = or_else [] (lookup k s.lists)

-- The items but the last, and the last.
abbrev split_last : List String → Option (List String × String)
split_last [] = none
split_last (x ∷ xs) = elim (split_last xs) [ none ↦ some ([], x) | some (ys, y) ↦ some (x ∷ ys, y) ]

split_last-snoc : (xs : List String) (x : String) → split_last (xs ++ x ∷ []) ≡ some (xs, x)
split_last-snoc [] x = refl
split_last-snoc (y ∷ xs) x = ground (arith, split_last-snoc xs x)

abbrev move : Option (List String × String) → (a b : String) → ℕ → Server → Popped × Server
move none a b t s = (if nat_eq t 0 then waits else nothing, s)
move (some (xs, x)) a b t s =
    let taken = insert a xs s.lists in
    (popped x, record s { lists = insert b (x ∷ or_else [] (lookup b taken)) taken })

abbrev store :
    (key field value : String)
    → ((key field : String) → Option String)
    → String
    → String
    → Option String
store k f v hash j g = if k == j then (if f == g then some v else hash j g) else hash j g

abbrev pub memory : Redis
memory = record {
  State = Server;
  items = at;
  hget = λ k f s. s.hash k f;
  lpush = λ k v s. record s { lists = insert k (v ∷ at k s) s.lists };
  brpoplpush = λ a b t s. move (split_last (at a s)) a b t s;
  lrem = λ k v s. (count v (at k s), record s { lists = insert k (without v (at k s)) s.lists });
  hset = λ k f v s. record s { hash = store k f v s.hash };
  expire = λ k t s. s;
}

at-insert :
    (k j : String) (v : List String) (d : Dict (List String))
    → or_else [] (lookup j (insert k v d)) ≡ (if k == j then v else or_else [] (lookup j d))
at-insert k j v d = ground (arith, lookup-insert k j v d)

at-move :
    (a b j x : String) (xs : List String) (t : ℕ) (s : Server)
    → (a == b) ≡ false
    → at j (move (some (xs, x)) a b t s).1
      ≡ (if a == j then xs else if b == j then x ∷ at j s else at j s)
at-move a b j x xs t s apart = ground (
  arith,
  at-insert b j (x ∷ or_else [] (lookup b (insert a xs s.lists))) (insert a xs s.lists),
  at-insert a b xs s.lists,
  at-insert a j xs s.lists,
  eq_iff a j,
  eq_iff b j,
  eq_iff a b,
)

pub memory-IsLawful : IsLawful memory
memory-IsLawful = record {
  items-lpush = λ k v j s. ground (arith, at-insert k j (v ∷ at k s) s.lists, eq_iff k j);
  brpoplpush-empty = λ a b t s e. ap (λ l. move (split_last l) a b t s) e;
  brpoplpush-last = λ a b x xs t s e.
      ap (λ l. (move (split_last l) a b t s).0) e
      ∙ ap (λ o. (move o a b t s).0) (split_last-snoc xs x);
  items-brpoplpush = λ a b j x xs t s e apart.
      ap (λ l. at j (move (split_last l) a b t s).1) e
      ∙ ap (λ o. at j (move o a b t s).1) (split_last-snoc xs x)
      ∙ at-move a b j x xs t s apart;
  lrem-count = λ k v s. refl;
  items-lrem = λ k v j s. ground (arith, at-insert k j (without v (at k s)) s.lists, eq_iff k j);
  items-hset = λ k f v j s. refl;
  hget-hset = λ k f v s. ground (arith, eq_refl k, eq_refl f);
  items-expire = λ k t j s pos. refl;
  hget-expire = λ k t j f s pos. refl;
}
