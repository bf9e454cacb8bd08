-- ===== src/Sdk/Pipeline/Selectors/Chain.antt =====
-- A chain of selectors without `random` is one filter.
use qmtl.Base.{
  ℕ, zero, suc, ◌≤◌, String, List, [], ◌∷◌, ◌++◌, ◌≡◌, refl, ◌∙◌, sym, ap, Bool, true, false, ◌&&◌,
  not, Option, none, some, ◌==◌, if◌then◌else◌, any, all, keep_if, keep_if_cong, length, if_true,
  if_false, arith, eq_iff, Bool-cases, inl, inr,
}
use qmtl.Sdk.Pipeline.{ProcessingNode}
use qmtl.Sdk.Pipeline.Selectors.{
  Attribute, Selector, take, drop, batches, batches_by, concat, or_one, ◌>>=◌, ℤ, pos, negsuc,
  match_meta, apply_selector, apply_selectors,
}

module _ {ℓ} {A : Type ℓ} where
  take-append-drop : (n : ℕ) (xs : List A) → take n xs ++ drop n xs ≡ xs
  take-append-drop zero xs = refl
  take-append-drop (suc n) [] = refl
  take-append-drop (suc n) (x ∷ xs) = ap (λ r. x ∷ r) (take-append-drop n xs)

  length-drop_le : (n : ℕ) (xs : List A) → length (drop n xs) ≤ length xs
  length-drop_le zero xs = omega arith
  length-drop_le (suc n) [] = omega arith
  length-drop_le (suc n) (x ∷ xs) = omega (arith, length-drop_le n xs)

  -- The batches, put together again, are the list.
  concat-batches :
      (fuel n : ℕ) (xs : List A) → length xs ≤ fuel → concat (batches fuel (suc n) xs) ≡ xs
  concat-batches zero n [] h = refl
  concat-batches zero n (x ∷ xs) h = absurd (omega arith)
  concat-batches (suc fuel) n [] h = refl
  concat-batches (suc fuel) n (x ∷ xs) h =
      ap (λ r. x ∷ (take n xs ++ r))
        (concat-batches fuel n (drop n xs) (omega (arith, length-drop_le n xs)))
      ∙ ap (λ r. x ∷ r) (take-append-drop n xs)

  keep_if-keep_if :
      (p q : A → Bool) (xs : List A) → keep_if p (keep_if q xs) ≡ keep_if (λ x. q x && p x) xs
  keep_if-keep_if p q [] = refl
  keep_if-keep_if p q (x ∷ xs) = ground (arith, keep_if-keep_if p q xs)

  keep_if-true : (p : A → Bool) (xs : List A) → ((x : A) → p x ≡ true) → keep_if p xs ≡ xs
  keep_if-true p [] h = refl
  keep_if-true p (x ∷ xs) h = ground (arith, h x, keep_if-true p xs h)

abbrev is_negative : Option ℤ → Bool
is_negative (some (negsuc n)) = true
is_negative _ = false

module _ (attribute_is : String → Attribute → ProcessingNode → Bool) where
  -- A filter turns nodes away, and a batch of a negative size all of them.
  abbrev pub admits : Selector → ProcessingNode → Bool
  admits s node =
      if s.mode == "filter"
      then match_meta attribute_is s.filter_meta node
      else not ((s.mode == "batch") && is_negative s.batch_size)

concat-batches_by {ℓ} :
    {A : Type ℓ} (nodes : List A) (size : Option ℤ)
    → concat (batches_by (or_one size) nodes) ≡ (if is_negative size then [] else nodes)
concat-batches_by nodes none = concat-batches (length nodes) 0 nodes (omega arith)
concat-batches_by nodes (some (pos zero)) = concat-batches (length nodes) 0 nodes (omega arith)
concat-batches_by nodes (some (pos (suc n))) = concat-batches (length nodes) n nodes (omega arith)
concat-batches_by nodes (some (negsuc n)) = refl

keep_if-const {ℓ} :
    {A : Type ℓ} (b : Bool) (xs : List A) → keep_if (λ x. b) xs ≡ (if b then xs else [])
keep_if-const b [] = ground arith
keep_if-const b (x ∷ xs) = ground (arith, keep_if-const b xs)

module _ (attribute_is : String → Attribute → ProcessingNode → Bool)
    (sample : ℕ → List ProcessingNode → ℕ → List ProcessingNode) where
  unchanged :
      (i : ℕ) (s : Selector) (nodes : List ProcessingNode)
      → (s.mode == "random") ≡ false
      → (s.mode == "filter") ≡ false
      → apply_selector attribute_is sample i s nodes
        ≡ some (if not ((s.mode == "batch") && is_negative s.batch_size) then nodes else [])
  unfolding apply_selector
  unchanged i s nodes h other = elim (Bool-cases (s.mode == "batch")) [
    | inl b ↦
        if_false _ _ _ (ap (λ m. m == "list") ((eq_iff s.mode "batch").0 b))
        ∙ if_true _ _ _ b
        ∙ ap some (concat-batches_by nodes s.batch_size ∙ ground (arith, b))
    | inr b ↦ elim (Bool-cases (s.mode == "list")) [
      | inl plain ↦ if_true _ _ _ plain ∙ ground (arith, b)
      | inr m ↦
          if_false _ _ _ m
          ∙ if_false _ _ _ b
          ∙ if_false _ _ _ h
          ∙ if_false _ _ _ other
          ∙ ground (arith, b)
    ]
  ]

  apply_selector_lem :
      (i : ℕ) (s : Selector) (nodes : List ProcessingNode)
      → (s.mode == "random") ≡ false
      → apply_selector attribute_is sample i s nodes ≡ some (keep_if (admits attribute_is s) nodes)
  unfolding apply_selector
  apply_selector_lem i s nodes h = elim (Bool-cases (s.mode == "filter")) [
    | inl f ↦
        let e = (eq_iff s.mode "filter").0 f in
        if_false _ _ _ (ap (λ m. m == "list") e)
        ∙ if_false _ _ _ (ap (λ m. m == "batch") e)
        ∙ if_false _ _ _ h
        ∙ if_true _ _ _ f
        ∙ ap some (
            keep_if_cong (match_meta attribute_is s.filter_meta) (admits attribute_is s) nodes
              (λ x. sym (if_true _ _ _ f)))
    | inr other ↦
        unchanged i s nodes h other
        ∙ ap some (
            sym (keep_if-const (not ((s.mode == "batch") && is_negative s.batch_size)) nodes)
            ∙ keep_if_cong (λ x. not ((s.mode == "batch") && is_negative s.batch_size))
                (admits attribute_is s) nodes (λ x. sym (if_false _ _ _ other)))
  ]

  -- Without a random selector, a chain of selectors raises nothing and keeps, in order, exactly the nodes that
  -- every selector of the chain admits: a filter those that match it, a batch of a negative size none, and
  -- any other selector all.
  pub apply_selectors_lem :
      (i : ℕ) (ss : List Selector) (nodes : List ProcessingNode)
      → any (λ s. s.mode == "random") ss ≡ false
      → apply_selectors attribute_is sample i ss nodes
        ≡ some (keep_if (λ n. all (λ s. admits attribute_is s n) ss) nodes)
  unfolding apply_selectors
  apply_selectors_lem i [] nodes h = ap some (sym (keep_if-true (λ n. true) nodes (λ n. refl)))
  apply_selectors_lem i (s ∷ ss) nodes h =
      let rest = keep_if (admits attribute_is s) nodes in
      ap (λ o. o >>= apply_selectors attribute_is sample (suc i) ss)
        (apply_selector_lem i s nodes (ground arith))
      ∙ apply_selectors_lem (suc i) ss rest (ground arith)
      ∙ ap some (
          keep_if-keep_if (λ n. all (λ t. admits attribute_is t n) ss) (admits attribute_is s)
            nodes)
