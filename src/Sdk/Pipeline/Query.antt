-- ===== src/Sdk/Pipeline/Query.antt =====
-- sdk/pipeline.py: the nodes that a query node selects.
use qmtl.Base.{
  String, List, [], ◌∷◌, ◌≡◌, refl, ◌∙◌, sym, Bool, true, false, ◌&&◌, Option, none, some, ◌==◌,
  nat_eq, if◌then◌else◌, all, any, keep_if, contains, Dict, lookup, insert, has_key, values, Result,
  ok, ◌>>=◌, bind-eq-ok, arith, Bool-cases, Option-cases, if_false, subst, inl, inr,
}
use qmtl.Sdk.Pipeline.{
  Scalar, text, number, Setting, Intervals, Legacy, scalar, nested, ProcessingNode, QueryNode,
  Pipeline, PipelineError, truthy, apply_default_intervals, add_node,
}

abbrev pub same_scalar : Scalar → Scalar → Bool
same_scalar (text s) (text t) = s == t
same_scalar (text s) (number n) = false
same_scalar (number n) (text t) = false
same_scalar (number m) (number n) = nat_eq m n

abbrev pub is_value : Scalar → Option Scalar → Bool
is_value wanted none = false
is_value wanted (some s) = same_scalar s wanted

-- The field of an interval's settings and of a dict in `interval_settings` that a filter reads.
pub record Field : Type 0 where
  pub key : String
  pub of_setting : Setting → Option Scalar
  pub of_nested : (interval period : Option Scalar) → Option Scalar

abbrev pub interval_field : Field
interval_field = record {
  key = "interval";
  of_setting = λ s. s.interval;
  of_nested = λ interval period. interval;
}

abbrev pub period_field : Field
period_field = record {
  key = "period";
  of_setting = λ s. s.period;
  of_nested = λ interval period. period;
}

-- A dict among the settings has no attributes.
abbrev pub setting_is : Field → Scalar → Setting → Bool
setting_is f wanted s = s.is_object && is_value wanted (f.of_setting s)

abbrev legacy_is : Field → Scalar → Legacy → Bool
legacy_is f wanted (scalar s) = false
legacy_is f wanted (nested i p h t) = is_value wanted (f.of_nested i p)

abbrev pub direct_is : Scalar → Legacy → Bool
direct_is wanted (scalar s) = same_scalar s wanted
direct_is wanted (nested i p h t) = false

-- `interval_settings`: the key itself, or else a nested dict.
unfoldable pub legacy_matches : Field → Scalar → Dict Legacy → Bool
legacy_matches f wanted d = elim (lookup f.key d) [
  | some v ↦ direct_is wanted v
  | none ↦ any (legacy_is f wanted) (values d)
]

abbrev field_matches : Field → Scalar → ProcessingNode → Bool
field_matches f wanted n = elim n.stream_settings [
  | some intervals ↦ any (setting_is f wanted) (values intervals)
  | none ↦ legacy_matches f wanted n.interval_settings
]

-- A criterion that is not given, or is empty, is not tested.
abbrev passes : Field → Option Scalar → ProcessingNode → Bool
passes f none n = true
passes f (some wanted) n = if truthy wanted then field_matches f wanted n else true

-- The loop body: the three `continue`s, then the append.
unfoldable pub select_nodes : QueryNode → List ProcessingNode → List ProcessingNode
select_nodes q [] = []
select_nodes q (n ∷ ns) =
    let rest = select_nodes q ns in
    if all (λ tag. contains tag n.tags) q.query_tags
    then (if passes interval_field q.interval n
        then (if passes period_field q.period n then n ∷ rest else rest)
        else rest)
    else rest

unfoldable pub find_nodes_by_query : QueryNode → Pipeline → List ProcessingNode
find_nodes_by_query q p = select_nodes q (values p.nodes)

-- A call of `add_node` for each node in turn.
unfoldable pub add_nodes : List ProcessingNode → Pipeline → Result PipelineError Pipeline
add_nodes [] p = ok p
add_nodes (n ∷ ns) p = add_node n p >>= add_nodes ns

-- Some of the node's intervals has the wanted value, if there is one.
abbrev pub declares : Field → Option Scalar → Option Intervals → Bool
declares f none settings = true
declares f (some wanted) none = false
declares f (some wanted) (some intervals) =
    if truthy wanted then any (setting_is f wanted) (values intervals) else true

abbrev pub selected : QueryNode → ProcessingNode → Bool
selected q n =
    all (λ tag. contains tag n.tags) q.query_tags
    && declares interval_field q.interval n.stream_settings
    && declares period_field q.period n.stream_settings

abbrev has_settings : Option Intervals → Bool
has_settings none = false
has_settings (some intervals) = true

abbrev pub settled : List ProcessingNode → Bool
settled ns = all (λ n. has_settings n.stream_settings) ns

passes-declares :
    (f : Field) (wanted : Option Scalar) (n : ProcessingNode)
    → has_settings n.stream_settings ≡ true
    → passes f wanted n ≡ declares f wanted n.stream_settings
passes-declares f none n h = refl
passes-declares f (some wanted) n h = ground (arith, Option-cases n.stream_settings)

select_nodes_lem :
    (q : QueryNode) (ns : List ProcessingNode)
    → settled ns ≡ true
    → select_nodes q ns ≡ keep_if (selected q) ns
unfolding select_nodes
select_nodes_lem q [] h = refl
select_nodes_lem q (n ∷ ns) h = ground (
  arith,
  select_nodes_lem q ns,
  passes-declares interval_field q.interval n,
  passes-declares period_field q.period n,
)

settled-insert :
    (k : String) (n : ProcessingNode) (d : Dict ProcessingNode)
    → has_settings n.stream_settings ≡ true
    → settled (values d) ≡ true
    → settled (values (insert k n d)) ≡ true
unfolding insert
settled-insert k n [] h i = ground arith
settled-insert k n ((j, m) ∷ d) h i = ground (arith, settled-insert k n d)

add_node-settled :
    (n : ProcessingNode) (p p' : Pipeline)
    → settled (values p.nodes) ≡ true
    → add_node n p ≡ ok p'
    → settled (values p'.nodes) ≡ true
unfolding add_node
add_node-settled n p p' i h = elim (Bool-cases (has_key n.name p.nodes)) [
  | inl e ↦ absurd (ground arith)
  | inr e ↦
      let (intervals, applied, stored) =
        bind-eq-ok (apply_default_intervals p.default_intervals n.stream_settings) _
          (sym (if_false _ _ _ e) ∙ h) in
      let complete : ProcessingNode = record n { stream_settings = some intervals } in
      ground (arith, settled-insert n.name complete p.nodes)
]

-- In a pipeline to which the nodes were added, a query selects, in their order, the nodes that have
-- all of its tags, one interval of the wanted length and one of the wanted period, not necessarily
-- the same: the older interval settings are never read.
pub find_nodes_by_query-add_nodes :
    (q : QueryNode) (ns : List ProcessingNode) (p p' : Pipeline)
    → settled (values p.nodes) ≡ true
    → add_nodes ns p ≡ ok p'
    → find_nodes_by_query q p' ≡ keep_if (selected q) (values p'.nodes)
unfolding add_nodes find_nodes_by_query
find_nodes_by_query-add_nodes q [] p p' i h =
    let same : p ≡ p' = ground arith in
    subst (λ k. select_nodes q (values k.nodes) ≡ keep_if (selected q) (values k.nodes)) same
      (select_nodes_lem q (values p.nodes) i)
find_nodes_by_query-add_nodes q (n ∷ ns) p p' i h =
    let (next, added, rest) = bind-eq-ok (add_node n p) (add_nodes ns) h in
    find_nodes_by_query-add_nodes q ns next p' (add_node-settled n p next i added) rest
