-- ===== src/Sdk/Engine/Decides.antt =====
-- The loop of `execute_pipeline` over an order, without a time limit.
pub mod Sorted
use qmtl.Base.{
  ℕ, zero, suc, ◌+◌, ◌≤◌, ◌<◌, String, List, [], ◌∷◌, ◌++◌, ◌≡◌, refl, ◌∙◌, sym, ap, subst, Bool,
  true, false, ◌||◌, Option, none, some, ◌==◌, if◌then◌else◌, if_true, if_false, Dict, lookup,
  insert, contains, length, or_else, Result, ok, err, ◌>>=◌, Option-cases, Bool-cases, inl, inr,
  ◌⊎◌, arith, eq_iff, eq_refl, Follows, IsOrderedBy,
}
use qmtl.Sdk.Value.{Value}
use qmtl.Sdk.Engine.{
  Node, EngineError, Engine, Run, finished, raised, Clock, ◌then◌, round, run_order,
}
use qmtl.Sdk.Engine.Reference.{evaluate}
use qmtl.Sdk.Engine.Refines.{IsNamed, upstreams_of, Computed, Follow, Adds, round_lem}

finished-injective : (e e' : Engine) → finished e ≡ finished e' → e ≡ e'
finished-injective e e' h = cc

-- The names after the rounds of an order.
abbrev pub visited : (order seen : List String) → List String
visited [] seen = seen
visited (x ∷ xs) seen = visited xs (x ∷ seen)

pub contains-visited :
    (x : String) (order seen : List String)
    → contains x (visited order seen) ≡ (contains x order || contains x seen)
contains-visited x [] seen = refl
contains-visited x (y ∷ order) seen = ground (arith, contains-visited x order (y ∷ seen))

pub length-visited :
    (order seen : List String) → length (visited order seen) ≡ length order + length seen
length-visited [] seen = omega arith
length-visited (y ∷ order) seen = omega (arith, length-visited order (y ∷ seen))

module _ (clock : Clock) (nodes : Dict Node) (inputs : Option (Dict Value))
    (named : IsNamed nodes) where
  round-Adds :
      (i : ℕ) (name : String) (seen : List String) (e e' : Engine)
      → Follows (upstreams_of nodes) seen name
      → Computed clock nodes inputs seen e
      → round clock none nodes inputs i name e ≡ finished e'
      → (depth : ℕ) → length seen ≤ depth
      → Adds name (evaluate nodes inputs (suc depth) name) e e'
  round-Adds i name seen e e' f c run depth enough =
      elim (round_lem clock nodes inputs i depth name seen e named f c enough) [
        | inl (e'', run', a) ↦ subst (Adds name _ e) (finished-injective e'' e' (sym run' ∙ run)) a
        | inr (x, run', h) ↦ absurd (ground arith)
      ]

  -- Every depth above the number of the names seen gives the value that the round has stored.
  round-value :
      (i : ℕ) (name : String) (seen : List String) (e e' : Engine)
      → Follows (upstreams_of nodes) seen name
      → Computed clock nodes inputs seen e
      → round clock none nodes inputs i name e ≡ finished e'
      → (depth : ℕ) → suc (length seen) ≤ depth
      → (x : String) → contains x (name ∷ seen) ≡ true
      → evaluate nodes inputs depth x ≡ ok (lookup x e'.results)
  round-value i name seen e e' f c run zero enough x given = absurd (omega arith)
  round-value i name seen e e' f c run (suc d) enough x given =
      let a = round-Adds i name seen e e' f c run d (omega arith) in
      elim (Bool-cases (name == x)) [
        | inl same ↦
            subst (λ y. evaluate nodes inputs (suc d) y ≡ ok (lookup y e'.results))
              ((eq_iff name x).0 same) a.own
        | inr other ↦
            c.values (suc d) (omega arith) x (ground arith) ∙ sym (ap ok (a.others x other))
      ]

  round-Computed :
      (i : ℕ) (name : String) (seen : List String) (e e' : Engine)
      → Follows (upstreams_of nodes) seen name
      → Computed clock nodes inputs seen e
      → round clock none nodes inputs i name e ≡ finished e'
      → Computed clock nodes inputs (name ∷ seen) e'
  round-Computed i name seen e e' f c run =
      let a = round-Adds i name seen e e' f c run (length seen) (omega arith) in
      record {
        values = round-value i name seen e e' f c run;
        others = λ x new. a.others x (ground arith) ∙ c.others x (ground arith);
      }

  -- A round that raises does so with what the reference gives at every depth above.
  round-raised :
      (i : ℕ) (name : String) (seen : List String) (e : Engine) (x : EngineError)
      → Follows (upstreams_of nodes) seen name
      → Computed clock nodes inputs seen e
      → round clock none nodes inputs i name e ≡ raised x e
      → (depth : ℕ) → length seen < depth
      → evaluate nodes inputs depth name ≡ err x
  round-raised i name seen e x f c run zero enough = absurd (omega arith)
  round-raised i name seen e x f c run (suc d) enough =
      elim (round_lem clock nodes inputs i d name seen e named f c (omega arith)) [
        | inl (e', run', a) ↦ absurd (ground arith)
        | inr (x', run', h) ↦ ground arith
      ]

  -- Either all rounds finish, or one raises what the reference gives for its node.
  abbrev pub Outcome : (order seen : List String) → Run → Type 0
  Outcome order seen run =
      ((e' : Engine) × (run ≡ finished e') × Computed clock nodes inputs (visited order seen) e')
      ⊎ ((x : EngineError) × (e' : Engine) × (run ≡ raised x e')
          × (name : String) × (contains name order ≡ true)
          × ((depth : ℕ)
              → length (visited order seen) ≤ depth
              → evaluate nodes inputs depth name ≡ err x))

  pub run_order_lem :
      (i : ℕ) (order seen : List String) (e : Engine)
      → IsOrderedBy (upstreams_of nodes) seen order
      → Computed clock nodes inputs seen e
      → Outcome order seen (run_order clock none nodes inputs i order e)
  unfolding run_order
  run_order_lem i [] seen e o c = inl (e, refl, c)
  run_order_lem i (name ∷ order) seen e o c =
      let f = o.0 in
      elim (round_lem clock nodes inputs i (length seen) name seen e named f c (omega arith)) [
        | inr (x, run, h) ↦ inr (
          x,
          e,
          ap (λ r. r then run_order clock none nodes inputs (suc i) order) run,
          name,
          ground (arith, eq_refl name),
          λ depth enough.
              round-raised i name seen e x f c run depth
                (omega (arith, length-visited order (name ∷ seen))),
        )
        | inl (e₁, run, a) ↦
            let c₁ = round-Computed i name seen e e₁ f c run in
            let here : run_order clock none nodes inputs i (name ∷ order) e
                ≡ run_order clock none nodes inputs (suc i) order e₁ =
              ap (λ r. r then run_order clock none nodes inputs (suc i) order) run in
            elim (run_order_lem (suc i) order (name ∷ seen) e₁ o.1 c₁) [
              | inl (e', rest, c') ↦ inl (e', here ∙ rest, c')
              | inr (x, e', rest, y, there, h) ↦ inr (x, e', here ∙ rest, y, ground arith, h)
            ]
      ]
