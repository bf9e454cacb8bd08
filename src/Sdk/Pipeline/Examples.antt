-- ===== src/Sdk/Pipeline/Examples.antt =====
-- A small pipeline, and the theorems at it.
use qmtl.Base.{
  ℕ, Bool, false, ◌&&◌, ◌==◌, all, String, List, [], ◌∷◌, ◌≡◌, refl, true, contains, keys, lookup,
  insert, keep_if, none, some, ok, err, ◌⊎◌,
}
use qmtl.Core.Graph.Spec.{IsOrdered, Reaches}
use qmtl.Sdk.Pipeline.{
  text, number, Setting, ProcessingNode, QueryNode, Pipeline, unknown_upstream, cyclic, duplicate,
  complete_all, update, apply_default_intervals, add_node, add_query_node,
}
use qmtl.Sdk.Pipeline.Query.{legacy_matches, select_nodes, find_nodes_by_query, add_nodes}
use qmtl.Sdk.Pipeline.Selectors.{
  Attribute, word, words, Selector, pos, negsuc, attribute, stream, apply_selector, apply_selectors,
}
use qmtl.Sdk.Pipeline.Selectors.Chain.{admits, apply_selectors_lem}
use qmtl.Sdk.Pipeline.Sort.{
  validate_dependencies, dfs, dfs_all, dfs_unvisited, search, topological_sort, get_execution_order,
}
use qmtl.Sdk.Pipeline.Sort.Matches.{data_of}
use qmtl.Sdk.Pipeline.Sort.Validated.{IsUnknown}
use qmtl.Sdk.Pipeline.Sort.Decides.{topological_sort_decides}

abbrev daily : Setting
daily = record {
  is_object = true;
  interval = some (text "1d");
  period = some (number 14);
  max_history = some 30;
  ttl = none;
}

abbrev node : String → List String → ProcessingNode
node name upstreams = record {
  name = name;
  tags = "price" ∷ [];
  upstreams = upstreams;
  stream_settings = none;
  interval_settings = [];
}

abbrev empty : Pipeline
empty = record {
  nodes = [];
  query_nodes = [];
  execution_order = [];
  default_intervals = ("1d", daily) ∷ [];
}

abbrev given : List ProcessingNode
given = node "ema" ("close" ∷ []) ∷ node "close" [] ∷ []

abbrev completed : ProcessingNode → ProcessingNode
completed n = record n { stream_settings = some (("1d", daily) ∷ []) }

abbrev filled : Pipeline
filled = record empty {
  nodes =
      ("ema", completed (node "ema" ("close" ∷ []))) ∷ ("close", completed (node "close" [])) ∷ [];
}

abbrev wanted : QueryNode
wanted = record {
  name = "q";
  query_tags = "price" ∷ [];
  interval = some (text "1d");
  period = none;
  stream_settings = none;
}

abbrev as_listed : List String → List String
as_listed xs = xs

program : Unit {0}
unfolding lookup insert complete_all update apply_default_intervals add_node add_query_node
    add_nodes legacy_matches select_nodes find_nodes_by_query apply_selector apply_selectors
    validate_dependencies dfs dfs_all dfs_unvisited search topological_sort get_execution_order
program = tt

adds : add_nodes given empty ≡ ok filled
unfolding program
adds = refl

adds_twice : add_node (node "ema" []) filled ≡ err duplicate
unfolding program
adds_twice = refl

order : topological_sort as_listed filled.nodes ≡ ok ("close" ∷ "ema" ∷ [])
unfolding program
order = refl

order-unknown :
    topological_sort as_listed (("ema", node "ema" ("close" ∷ [])) ∷ [])
    ≡ err (unknown_upstream "ema" "close")
unfolding program
order-unknown = refl

topological_sort_decides_example :
    ((order : List String) × (topological_sort as_listed filled.nodes ≡ ok order)
      × IsOrdered (data_of as_listed filled.nodes) [] order
      × ((x : String) → contains x (keys filled.nodes) ≡ true → contains x order ≡ true))
    ⊎ ((x : String) × (topological_sort as_listed filled.nodes ≡ err (cyclic x))
        × ((y : String) × Reaches (data_of as_listed filled.nodes) y y))
    ⊎ ((name : String) × (u : String) × (topological_sort as_listed filled.nodes
          ≡ err (unknown_upstream name u))
        × IsUnknown filled.nodes name u)
topological_sort_decides_example =
    topological_sort_decides as_listed (λ xs y. refl) filled.nodes (refl, (refl, tt))

-- Here a node has its name for its only attribute.
abbrev has_name : String → Attribute → ProcessingNode → Bool
has_name k (word s) n = (k == "name") && (n.name == s)
has_name k (words ss) n = false

abbrev first_ones : ℕ → List ProcessingNode → ℕ → List ProcessingNode
first_ones i ns k = ns

abbrev in_batches : Selector
in_batches = record {
  mode = "batch";
  batch_size = some (pos 2);
  sample_size = none;
  filter_meta = [];
}

abbrev named_ema : Selector
named_ema = record {
  mode = "filter";
  batch_size = none;
  sample_size = none;
  filter_meta = attribute "name" (word "ema") ∷ [];
}

-- The entry for the settings ends the loop: the name after it is not looked at.
abbrev settings_first : Selector
settings_first = record named_ema { filter_meta = stream none ∷ attribute "name" (word "ema") ∷ [] }

name_ignored : apply_selectors has_name first_ones 0 (settings_first ∷ []) given ≡ some given
unfolding program
name_ignored = refl

-- A batch of a negative size loses every node.
negative_batch :
    apply_selectors has_name first_ones 0
      (record in_batches { batch_size = some (negsuc 0) } ∷ [])
      given
    ≡ some []
unfolding program
negative_batch = refl

apply_selectors_lem_example :
    apply_selectors has_name first_ones 0 (in_batches ∷ named_ema ∷ []) given
    ≡ some (keep_if (λ n. all (λ s. admits has_name s n) (in_batches ∷ named_ema ∷ [])) given)
apply_selectors_lem_example =
    apply_selectors_lem has_name first_ones 0 (in_batches ∷ named_ema ∷ []) given refl
