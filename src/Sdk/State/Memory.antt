-- ===== src/Sdk/State/Memory.antt =====
-- A server that keeps its lists and texts in memory: it meets the assumptions.
use qmtl.Base.{
  ℕ, ◌+◌, Option, none, some, if_true, eq_refl, String, List, [], ◌∷◌, ◌≡◌, refl, ◌==◌,
  if◌then◌else◌, length, Dict, lookup, lookup-insert, insert, or_else, arith, eq_iff,
}
use qmtl.Sdk.State.{is_over, up_to, Redis, IsLawful}

pub record Server : Type 0 where
  pub lists : Dict (List String)
  pub texts : Dict String
  pub deadlines : String → Option ℕ

abbrev at : String → Server → List String
at k s = or_else [] (lookup k s.lists)

-- The lists whose deadline is not reached.
abbrev living : (now : ℕ) → (String → Option ℕ) → Dict (List String) → Dict (List String)
living now deadlines [] = []
living now deadlines ((k, v) ∷ d) =
    (k, if is_over now (deadlines k) then [] else v) ∷ living now deadlines d

abbrev pub memory : Redis
memory = record {
  State = Server;
  tick = λ now s. record s {
    lists = living now s.deadlines s.lists;
    deadlines = λ k. if is_over now (s.deadlines k) then none else s.deadlines k;
  };
  deadline = λ k s. s.deadlines k;
  lrange = λ k t s. up_to t (at k s);
  llen = λ k s. length (at k s);
  get = λ k s. lookup k s.texts;
  lpush = λ k v s. record s { lists = insert k (v ∷ at k s) s.lists };
  ltrim = λ k t s. record s { lists = insert k (up_to t (at k s)) s.lists };
  expire = λ now k ttl s. record s {
    deadlines = λ j. if k == j then some (now + ttl) else s.deadlines j;
  };
  set = λ k v ex s. record {
    lists = insert k [] s.lists;
    texts = insert k v s.texts;
    deadlines = s.deadlines;
  };
}

at-insert :
    (k j : String) (v : List String) (d : Dict (List String))
    → or_else [] (lookup j (insert k v d)) ≡ (if k == j then v else or_else [] (lookup j d))
at-insert k j v d = ground (arith, lookup-insert k j v d)

at-living :
    (now : ℕ) (deadlines : String → Option ℕ) (j : String) (d : Dict (List String))
    → or_else [] (lookup j (living now deadlines d))
      ≡ (if is_over now (deadlines j) then [] else or_else [] (lookup j d))
unfolding lookup
at-living now deadlines j [] = ground arith
at-living now deadlines j ((k, v) ∷ d) =
    ground (arith, at-living now deadlines j d, eq_iff k j, eq_iff j k)

pub memory-IsLawful : IsLawful memory
memory-IsLawful = record {
  lrange-up_to = λ k t s. refl;
  lrange-lpush = λ k v j s. ground (arith, at-insert k j (v ∷ at k s) s.lists, eq_iff k j);
  lrange-ltrim = λ k j t s. ground (arith, at-insert k j (up_to t (at k s)) s.lists, eq_iff k j);
  lrange-expire = λ now k j ttl s lasting. refl;
  lrange-set = λ k v j ex s apart. ground (arith, at-insert k j [] s.lists);
  lrange-tick = λ now j s. at-living now s.deadlines j s.lists;
  deadline-tick = λ now j s. refl;
  deadline-lpush = λ k v j s. refl;
  deadline-ltrim = λ k j v vs t s full. refl;
  deadline-expire = λ now k v vs ttl s lasting full. if_true _ _ _ (eq_refl k);
  deadline-set = λ k v j ex s apart. refl;
}
