-- ===== src/Registry/Nodes/Query.antt =====
-- The listings of registry/services/node/memory_impl.py.
use qmtl.Base.{
  String, List, [], ◌∷◌, Bool, true, false, ◌&&◌, ◌||◌, ◌≡◌, refl, ◌==◌, Option, none, some,
  if◌then◌else◌, any, all, keep_if, contains, values, arith, Bool-cases, inl, inr, ◌∙◌, sym,
  keep_if_cong, if_true, if_false,
}
use qmtl.Registry.Nodes.{
  Value, is_text, tag_value, NodeTags, IntervalSettings, ProtoNode, NodeService,
}

unfoldable pub list_nodes : NodeService → List ProtoNode
list_nodes s = values s.nodes

abbrev no_deps : List String → Bool
no_deps [] = true
no_deps (d ∷ ds) = false

unfoldable pub list_zero_deps : NodeService → List ProtoNode
list_zero_deps s = keep_if (λ n. no_deps n.dependencies) (values s.nodes)

-- `t in predefined_tag_values or t in custom_tags`; a node without tags has neither.
abbrev pub has_tag : Option NodeTags → String → Bool
has_tag none t = false
has_tag (some tags) t = any (λ p. is_text t (tag_value p)) tags.predefined || contains t tags.custom

-- `tags` is given; the mode is "AND", or anything else.
abbrev pub tags_match : String → List String → ProtoNode → Bool
tags_match mode tags n =
    if mode == "AND" then all (has_tag n.tags) tags else any (has_tag n.tags) tags

abbrev filter_tags : String → List String → List ProtoNode → List ProtoNode
filter_tags mode [] nodes = nodes
filter_tags mode (t ∷ ts) nodes = keep_if (tags_match mode (t ∷ ts)) nodes

abbrev is_value : String → Option Value → Bool
is_value wanted none = false
is_value wanted (some v) = is_text wanted v

abbrev pub interval_is : String → Option IntervalSettings → Bool
interval_is wanted none = false
interval_is wanted (some settings) = is_value wanted settings.interval

abbrev pub period_is : String → Option IntervalSettings → Bool
period_is wanted none = false
period_is wanted (some settings) = is_value wanted settings.period

-- `if wanted and nodes: nodes = [n for n in nodes if …]`
abbrev filter_by :
    (String → Option IntervalSettings → Bool) → Option String → List ProtoNode → List ProtoNode
filter_by test none nodes = nodes
filter_by test (some wanted) [] = []
filter_by test (some wanted) (n ∷ ns) =
    if wanted == ""
    then n ∷ ns
    else keep_if (λ (k : ProtoNode). test wanted k.interval_settings) (n ∷ ns)

unfoldable pub list_by_tags :
    List String
    → (interval period : Option String) → (match_mode : String) → NodeService
    → List ProtoNode
list_by_tags tags interval period mode s =
    filter_by period_is period
      (filter_by interval_is interval (filter_tags mode tags (values s.nodes)))

-- One criterion that is not given, or is empty, lets every node pass.
abbrev pub passes : (String → Option IntervalSettings → Bool) → Option String → ProtoNode → Bool
passes test none n = true
passes test (some wanted) n = wanted == "" || test wanted n.interval_settings

abbrev pub tags_pass : String → List String → ProtoNode → Bool
tags_pass mode [] n = true
tags_pass mode (t ∷ ts) n = tags_match mode (t ∷ ts) n

keep_if-true : (xs : List ProtoNode) → keep_if (λ n. true) xs ≡ xs
keep_if-true [] = refl
keep_if-true (x ∷ xs) = rw (keep_if-true xs)

filter_by_lem :
    (test : String → Option IntervalSettings → Bool) (wanted : Option String) (ns : List ProtoNode)
    → filter_by test wanted ns ≡ keep_if (passes test wanted) ns
filter_by_lem test none ns = rw keep_if-true
filter_by_lem test (some wanted) [] = refl
filter_by_lem test (some wanted) (n ∷ ns) = elim (Bool-cases (wanted == "")) [
  | inl e ↦
      if_true _ _ _ e
      ∙ sym (
          keep_if_cong (passes test (some wanted)) (λ k. true) (n ∷ ns) (λ k. ground arith)
          ∙ keep_if-true (n ∷ ns))
  | inr e ↦
      if_false _ _ _ e
      ∙ keep_if_cong (λ k. test wanted k.interval_settings) (passes test (some wanted)) (n ∷ ns)
          (λ k. ground arith)
]

filter_tags_lem :
    (mode : String) (tags : List String) (ns : List ProtoNode)
    → filter_tags mode tags ns ≡ keep_if (tags_pass mode tags) ns
filter_tags_lem mode [] ns = rw keep_if-true
filter_tags_lem mode (t ∷ ts) ns = refl

keep_if-keep_if :
    (p q : ProtoNode → Bool) (ns : List ProtoNode)
    → keep_if p (keep_if q ns) ≡ keep_if (λ n. q n && p n) ns
keep_if-keep_if p q [] = refl
keep_if-keep_if p q (n ∷ ns) = ground (arith, keep_if-keep_if p q ns)

-- The listing holds, in the order of the registry, exactly the nodes that pass the tag criterion,
-- the interval and the period together: the filters can be applied in one pass.
pub list_by_tags_lem :
    (tags : List String) (interval period : Option String) (mode : String) (s : NodeService)
    → list_by_tags tags interval period mode s
      ≡ keep_if
          (λ n. tags_pass mode tags n && passes interval_is interval n && passes period_is period n)
          (values s.nodes)
unfolding list_by_tags
list_by_tags_lem tags interval period mode s = rw filter_by_lem (
    rw filter_by_lem (
      rw filter_tags_lem (
        rw keep_if-keep_if
          (rw keep_if-keep_if (keep_if_cong _ _ (values s.nodes) (λ n. ground arith))))))
