-- ===== src/Core/Queue/Conserved.antt =====
-- No item is lost or made up on its way through the queue and the processing list.
use qmtl.Base.{
  sym, nat_eq, count, count-append, ℕ, suc, ◌+◌, ◌<◌, String, List, [], ◌∷◌, ◌++◌, ◌≡◌, ◌∙◌, ap,
  true, false, ◌==◌, if◌then◌else◌, if_true, if_false, all, arith, eq_iff, eq_refl, inl, inr,
}
use qmtl.Core.Queue.Order.{reverse, reverse-snoc, snoc_append, append-nil}
use qmtl.Core.Queue.{
  popped, nothing, waits, Redis, IsLawful, Json, Keys, without, push, pop, complete,
}
use qmtl.Core.Queue.Calls.{
  Call, push_call, pop_call, complete_call, pushes, pushed, handed, spares, count-without,
  snoc_cases,
}

module _ (R : Redis) (lawful : IsLawful R) (json : Json) (keys : Keys)
    (apart : (keys.queue_key == keys.processing_key) ≡ false) where
  abbrev pub step : Call → R.State → R.State
  step (push_call item) s = push R json keys item s
  step (pop_call timeout) s = (pop R json keys timeout s).1
  step (complete_call w r t now) s = (complete R json keys w r t now s).1

  unfoldable pub run : List Call → R.State → R.State
  run [] s = s
  run (c ∷ cs) s = run cs (step c s)

  -- What the pops among the calls hand out, in order.
  unfoldable pub taken : List Call → R.State → List String
  taken [] s = []
  taken (push_call item ∷ cs) s = taken cs (push R json keys item s)
  taken (pop_call t ∷ cs) s = let (answer, s') = pop R json keys t s in handed answer (taken cs s')
  taken (complete_call w r t now ∷ cs) s = taken cs (complete R json keys w r t now s).1

  -- How often the item waits or is being processed.
  abbrev pub held : String → R.State → ℕ
  held x s = count x (R.items keys.queue_key s) + count x (R.items keys.processing_key s)

  held-push :
      (x item : String) (s : R.State)
      → held x (push R json keys item s) ≡ (if item == x then suc (held x s) else held x s)
  unfolding push
  held-push x item s =
      let qk = keys.queue_key in
      let pk = keys.processing_key in
      let q : R.items qk (R.lpush qk item s) ≡ item ∷ R.items qk s =
        lawful.items-lpush qk item qk s ∙ if_true _ _ _ (eq_refl qk) in
      let p : R.items pk (R.lpush qk item s) ≡ R.items pk s =
        lawful.items-lpush qk item pk s ∙ if_false _ _ _ apart in
      ground (arith, ap (count x) q, ap (count x) p)

  held-pop : (x : String) (t : ℕ) (s : R.State) → held x (pop R json keys t s).1 ≡ held x s
  unfolding pop
  held-pop x t s = elim (snoc_cases (R.items keys.queue_key s)) [
    | inl e ↦
        ap (λ r. held x r.1) (lawful.brpoplpush-empty keys.queue_key keys.processing_key t s e)
    | inr (ys, y, e) ↦
        let qk = keys.queue_key in
        let pk = keys.processing_key in
        let moved = λ (j : String). lawful.items-brpoplpush qk pk j y ys t s e apart in
        let q : R.items qk (R.brpoplpush qk pk t s).1 ≡ ys =
          moved qk ∙ if_true _ _ _ (eq_refl qk) in
        let p : R.items pk (R.brpoplpush qk pk t s).1 ≡ y ∷ R.items pk s =
          moved pk ∙ if_false _ _ _ apart ∙ if_true _ _ _ (eq_refl pk) in
        ground (arith, ap (count x) q, ap (count x) p, ap (count x) e, count-append x ys (y ∷ []))
  ]

  -- `complete` takes the item out of the processing list and out of nothing else.
  pub items-complete :
      (w r : String) (t : ℕ) (now : String) (j : String) (s : R.State)
      → 0 < t
      → R.items j (complete R json keys w r t now s).1
        ≡ (if keys.processing_key == j then without w (R.items j s) else R.items j s)
  unfolding complete
  items-complete w r t now j s pos =
      let s' = (R.lrem keys.processing_key w s).1 in
      let rk = keys.results_key in
      let stored = R.hset rk w (json.dumps now r) s' in
      ground (
        arith,
        lawful.items-lrem keys.processing_key w j s,
        lawful.items-hset rk w (json.dumps now r) j s',
        lawful.items-expire rk t j stored,
      )

  pub held-complete :
      (x w r : String) (t : ℕ) (now : String) (s : R.State)
      → 0 < t
      → held x (complete R json keys w r t now s).1
        ≡ (if w == x then count x (R.items keys.queue_key s) else held x s)
  held-complete x w r t now s pos =
      let qk = keys.queue_key in
      let pk = keys.processing_key in
      let other : (pk == qk) ≡ false = ground (arith, eq_iff pk qk, eq_iff qk pk) in
      let q = items-complete w r t now qk s pos ∙ if_false _ _ _ other in
      let p = items-complete w r t now pk s pos ∙ if_true _ _ _ (eq_refl pk) in
      ground (arith, ap (count x) q, ap (count x) p, count-without x w (R.items pk s))

  other_key : (keys.processing_key == keys.queue_key) ≡ false
  other_key =
      ground (
        arith,
        eq_iff keys.processing_key keys.queue_key,
        eq_iff keys.queue_key keys.processing_key,
      )

  abbrev pub waiting : R.State → List String
  waiting s = R.items keys.queue_key s

  abbrev pub processing : R.State → List String
  processing s = R.items keys.processing_key s

  waiting-push :
      (item : String) (s : R.State) → waiting (push R json keys item s) ≡ item ∷ waiting s
  unfolding push
  waiting-push item s =
      lawful.items-lpush keys.queue_key item keys.queue_key s
      ∙ if_true _ _ _ (eq_refl keys.queue_key)

  processing-push :
      (item : String) (s : R.State) → processing (push R json keys item s) ≡ processing s
  unfolding push
  processing-push item s =
      lawful.items-lpush keys.queue_key item keys.processing_key s ∙ if_false _ _ _ apart

  -- Of a pop: nothing happens to an empty queue, and else the oldest item moves.
  record Pops (t : ℕ) (s : R.State) (ys : List String) (y : String) : Type 0 where
    answer : (pop R json keys t s).0 ≡ popped y
    left : waiting (pop R json keys t s).1 ≡ ys
    moved : processing (pop R json keys t s).1 ≡ y ∷ processing s

  pop-Pops :
      (t : ℕ) (s : R.State) (ys : List String) (y : String)
      → waiting s ≡ ys ++ y ∷ []
      → Pops t s ys y
  unfolding pop
  pop-Pops t s ys y e =
      let qk = keys.queue_key in
      let pk = keys.processing_key in
      let at = λ (j : String). lawful.items-brpoplpush qk pk j y ys t s e apart in
      record {
        answer = lawful.brpoplpush-last qk pk y ys t s e;
        left = at qk ∙ if_true _ _ _ (eq_refl qk);
        moved = at pk ∙ if_false _ _ _ apart ∙ if_true _ _ _ (eq_refl pk);
      }

  pop-idle :
      (t : ℕ) (s : R.State)
      → waiting s ≡ []
      → pop R json keys t s ≡ (if nat_eq t 0 then waits else nothing, s)
  unfolding pop
  pop-idle t s e = lawful.brpoplpush-empty keys.queue_key keys.processing_key t s e

  handed-idle : (t : ℕ) (xs : List String) → handed (if nat_eq t 0 then waits else nothing) xs ≡ xs
  handed-idle t xs = ground arith

  in_order :
      (x : String) (cs : List Call) (s : R.State)
      → all (spares x) cs ≡ true
      → taken cs s ++ reverse (waiting (run cs s)) ≡ reverse (waiting s) ++ pushed cs
  unfolding run taken
  in_order x [] s h = sym (append-nil (reverse (waiting s)))
  in_order x (push_call item ∷ cs) s h =
      in_order x cs (push R json keys item s) (ground arith)
      ∙ ap (λ w. reverse w ++ pushed cs) (waiting-push item s)
      ∙ snoc_append (reverse (waiting s)) item (pushed cs)
  in_order x (pop_call t ∷ cs) s h =
      let s' = (pop R json keys t s).1 in
      let rest = in_order x cs s' (ground arith) in
      elim (snoc_cases (waiting s)) [
        | inl e ↦
            let idle = pop-idle t s e in
            ap (λ a. handed a (taken cs s') ++ reverse (waiting (run cs s'))) (ap (λ r. r.0) idle)
            ∙ ap (λ xs. xs ++ reverse (waiting (run cs s'))) (handed-idle t (taken cs s'))
            ∙ rest
            ∙ ap (λ r. reverse (waiting r.1) ++ pushed cs) idle
        | inr (ys, y, e) ↦
            let p = pop-Pops t s ys y e in
            ap (λ a. handed a (taken cs s') ++ reverse (waiting (run cs s'))) p.answer
            ∙ ap (λ r. y ∷ r) (rest ∙ ap (λ w. reverse w ++ pushed cs) p.left)
            ∙ ap (λ w. w ++ pushed cs) (sym (ap reverse e ∙ reverse-snoc ys y))
      ]
  in_order x (complete_call w r t now ∷ cs) s h =
      in_order x cs (complete R json keys w r t now s).1 (ground arith)
      ∙ ap (λ q. reverse q ++ pushed cs)
          (items-complete w r t now keys.queue_key s (ground arith) ∙ if_false _ _ _ other_key)

  being_processed :
      (x : String) (cs : List Call) (s : R.State)
      → all (spares x) cs ≡ true
      → count x (processing (run cs s)) ≡ count x (processing s) + count x (taken cs s)
  unfolding run taken
  being_processed x [] s h = omega arith
  being_processed x (push_call item ∷ cs) s h =
      being_processed x cs (push R json keys item s) (ground arith)
      ∙ ap (λ p. count x p + count x (taken cs (push R json keys item s))) (processing-push item s)
  being_processed x (pop_call t ∷ cs) s h =
      let s' = (pop R json keys t s).1 in
      let rest = being_processed x cs s' (ground arith) in
      elim (snoc_cases (waiting s)) [
        | inl e ↦
            let idle = pop-idle t s e in
            rest
            ∙ ap (λ r. count x (processing r.1) + count x (taken cs s')) idle
            ∙ ap (λ xs. count x (processing s) + count x xs)
                (sym (ap (λ r. handed r.0 (taken cs s')) idle ∙ handed-idle t (taken cs s')))
        | inr (ys, y, e) ↦
            let p = pop-Pops t s ys y e in
            let front = ap (λ a. count x (handed a (taken cs s'))) p.answer in
            ground (arith, rest, ap (count x) p.moved, front)
      ]
  being_processed x (complete_call w r t now ∷ cs) s h =
      let pk = keys.processing_key in
      let spared : (w == x) ≡ false = ground arith in
      being_processed x cs (complete R json keys w r t now s).1 (ground arith)
      ∙ ap (λ p. count x p + count x (taken cs (complete R json keys w r t now s).1))
          (items-complete w r t now pk s (ground arith) ∙ if_true _ _ _ (eq_refl pk))
      ∙ ap (λ n. n + count x (taken cs (complete R json keys w r t now s).1))
          (count-without x w (processing s) ∙ if_false _ _ _ spared)

  -- Of an item that no call completes there are as many, waiting or being processed, as before and as
  -- were pushed meanwhile: however pushes, pops and completions of other items interleave, none is
  -- lost and none is doubled.
  pub held-run :
      (x : String) (cs : List Call) (s : R.State)
      → all (spares x) cs ≡ true
      → held x (run cs s) ≡ held x s + pushes x cs
  unfolding run
  held-run x [] s h = omega arith
  held-run x (push_call item ∷ cs) s h =
      ground (arith, held-run x cs (push R json keys item s), held-push x item s)
  held-run x (pop_call t ∷ cs) s h =
      ground (arith, held-run x cs (pop R json keys t s).1, held-pop x t s)
  held-run x (complete_call w r t now ∷ cs) s h =
      ground
        (arith, held-run x cs (complete R json keys w r t now s).1, held-complete x w r t now s)

  -- However pushes, pops and completions interleave, where no call completes the item and each completion gives
  -- its result a time to live: what the pops hand out, followed by what still waits, is what waited at first
  -- followed by what was pushed, the oldest first; as many of the item are being processed as before and
  -- were handed out; and as many wait or are being processed as before and were pushed.
  pub taken-run :
      (x : String) (cs : List Call) (s : R.State)
      → all (spares x) cs ≡ true
      → (taken cs s ++ reverse (waiting (run cs s)) ≡ reverse (waiting s) ++ pushed cs)
        × (count x (processing (run cs s)) ≡ count x (processing s) + count x (taken cs s))
        × (held x (run cs s) ≡ held x s + pushes x cs)
  taken-run x cs s h = (in_order x cs s h, being_processed x cs s h, held-run x cs s h)
