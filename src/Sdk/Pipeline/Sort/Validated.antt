-- ===== src/Sdk/Pipeline/Sort/Validated.antt =====
-- sdk/pipeline.py: what `_validate_dependencies` finds.
use qmtl.Base.{
  String, List, [], ◌∷◌, ◌≡◌, refl, ◌∙◌, sym, ap, true, false, some, ◌==◌, contains, keys, Dict,
  lookup, has_key, ok, err, ◌>>=◌, arith, if_true, if_false, eq_iff, eq_refl, Bool-cases, inl, inr,
  ◌⊎◌, Nodup,
}
use qmtl.Sdk.Pipeline.{ProcessingNode, unknown_upstream}
use qmtl.Sdk.Pipeline.Sort.{check_upstreams, check_all}

-- The first upstream that is no node of the pipeline, and the node that names it.
pub record IsUnknown (d : Dict ProcessingNode) (name u : String) : Type 0 where
  pub node : ProcessingNode
  pub stored : lookup name d ≡ some node
  pub listed : contains u node.upstreams ≡ true
  pub absent : has_key u d ≡ false

lookup_stored :
    (k : String) (n : ProcessingNode) (d : Dict ProcessingNode)
    → lookup k d ≡ some n
    → contains k (keys d) ≡ true
unfolding lookup
lookup_stored k n [] h = absurd (ground arith)
lookup_stored k n ((j, v) ∷ d) h = ground (arith, lookup_stored k n d)

check_upstreams_cases :
    (d : Dict ProcessingNode) (name : String) (us : List String)
    → ((check_upstreams d name us ≡ ok d)
        × ((u : String) → contains u us ≡ true → has_key u d ≡ true))
      ⊎ ((u : String) × (check_upstreams d name us ≡ err (unknown_upstream name u))
          × (contains u us ≡ true)
          × (has_key u d ≡ false))
check_upstreams_cases d name [] = inl (refl, λ u h. absurd (ground arith))
check_upstreams_cases d name (v ∷ us) = elim (Bool-cases (has_key v d)) [
  | inr e ↦ inr (v, if_false _ _ _ e, ground (arith, eq_refl v), e)
  | inl e ↦ elim (check_upstreams_cases d name us) [
    | inl (h, all) ↦ inl (if_true _ _ _ e ∙ h, λ u c. ground (arith, all u, eq_iff v u))
    | inr (u, h, c, a) ↦ inr (u, if_true _ _ _ e ∙ h, ground arith, a)
  ]
]

pub check_all_cases :
    (d rest : Dict ProcessingNode)
    → Nodup (keys rest)
    → ((check_all d rest ≡ ok d)
        × ((name : String) (n : ProcessingNode) (u : String)
            → lookup name rest ≡ some n
            → contains u n.upstreams ≡ true
            → has_key u d ≡ true))
      ⊎ ((name : String) × (u : String) × (n : ProcessingNode) × (check_all d rest
            ≡ err (unknown_upstream name u))
          × (lookup name rest ≡ some n)
          × (contains u n.upstreams ≡ true)
          × (has_key u d ≡ false))
unfolding lookup
check_all_cases d [] nodup = inl (refl, λ name n u h. absurd (ground arith))
check_all_cases d ((k, node) ∷ rest) nodup = elim (check_upstreams_cases d k node.upstreams) [
  | inr (u, h, c, a) ↦
      inr (k, u, node, ap (λ r. r >>= λ same. check_all d rest) h, if_true _ _ _ (eq_refl k), c, a)
  | inl (h, all) ↦ elim (check_all_cases d rest nodup.1) [
    | inl (h', others) ↦ inl (
      ap (λ r. r >>= λ same. check_all d rest) h ∙ h',
      λ name n u l c. elim (Bool-cases (k == name)) [
        | inl e ↦ let same : some node ≡ some n = sym (if_true _ _ _ e) ∙ l in all u (ground arith)
        | inr e ↦ others name n u (sym (if_false _ _ _ e) ∙ l) c
      ],
    )
    | inr (name, u, n, h', l, c, a) ↦
        let apart : (k == name) ≡ false =
          ground (arith, lookup_stored name n rest, eq_iff k name) in
        inr (
          name,
          u,
          n,
          ap (λ r. r >>= λ same. check_all d rest) h ∙ h',
          if_false _ _ _ apart ∙ l,
          c,
          a,
        )
  ]
]
