-- ===== src/Sdk/Pipeline.antt =====
-- sdk/pipeline.py: the nodes of a pipeline and the completion of their intervals. Of a node only what
-- the pipeline reads is kept; each node has settings objects of its own.
pub mod Query
pub mod Sort
pub mod Selectors
mod Examples
use qmtl.Base.{
  ℕ, String, List, [], ◌∷◌, Bool, true, false, not, ◌&&◌, ◌||◌, Option, none, some, ◌==◌,
  if◌then◌else◌, all, nat_eq, Dict, lookup, insert, has_key, values, Result, ok, err, ◌>>=◌,
}

-- What an interval or a period can be.
pub data Scalar : Type 0 where
  text : String → Scalar
  number : ℕ → Scalar

-- One entry of `intervals`: an `IntervalSettings` object, or else a dict with these keys.
pub record Setting : Type 0 where
  pub is_object : Bool
  pub interval : Option Scalar
  pub period : Option Scalar
  pub max_history : Option ℕ
  pub ttl : Option ℕ

-- `stream_settings.intervals`
abbrev pub Intervals : Type 0
Intervals = Dict Setting

-- An `interval_settings` entry that is a dict has these keys; any other is a scalar.
pub data Legacy : Type 0 where
  scalar : Scalar → Legacy
  nested : (interval period : Option Scalar) → (max_history ttl : Option ℕ) → Legacy

pub record ProcessingNode : Type 0 where
  pub name : String
  pub tags : List String
  pub upstreams : List String
  pub stream_settings : Option Intervals
  pub interval_settings : Dict Legacy

pub record QueryNode : Type 0 where
  pub name : String
  pub query_tags : List String
  pub interval : Option Scalar
  pub period : Option Scalar
  pub stream_settings : Option Intervals

pub data PipelineError : Type 0 where
  duplicate no_intervals no_period no_interval attribute_error key_error out_of_fuel : PipelineError
  unknown_upstream : (name upstream : String) → PipelineError
  cyclic : String → PipelineError

pub record Pipeline : Type 0 where
  pub nodes : Dict ProcessingNode
  pub query_nodes : Dict QueryNode
  pub execution_order : List String
  pub default_intervals : Intervals

abbrev pub truthy : Scalar → Bool
truthy (text s) = not (s == "")
truthy (number n) = not (nat_eq n 0)

-- `period is None or period == 1`
abbrev pub wants_period : Option Scalar → Bool
wants_period none = true
wants_period (some (text s)) = false
wants_period (some (number n)) = nat_eq n 1

-- `intervals[k].period = default.period` on objects; a dict has no such attribute.
abbrev fill_period : (default setting : Setting) → Result PipelineError Setting
fill_period default setting =
    if not setting.is_object
    then err attribute_error
    else if not (wants_period setting.period)
    then ok setting
    else if default.is_object
    then ok (record setting { period = default.period })
    else err attribute_error

abbrev complete_one : String → Setting → Intervals → Result PipelineError Intervals
complete_one k default intervals = elim (lookup k intervals) [
  | none ↦ ok (insert k default intervals)
  | some setting ↦ (fill_period default setting >>= λ filled. ok (insert k filled intervals))
]

-- `for interval_key, default_setting in self.default_intervals.items()`
unfoldable pub complete_all : Intervals → Intervals → Result PipelineError Intervals
complete_all [] intervals = ok intervals
complete_all ((k, default) ∷ ds) intervals = complete_one k default intervals >>= complete_all ds

-- `dict.update`
unfoldable pub update : Intervals → Intervals → Intervals
update d [] = d
update d ((k, v) ∷ vs) = update (insert k v d) vs

abbrev if_truthy : Option Scalar → Option Scalar
if_truthy none = none
if_truthy (some s) = if truthy s then some s else none

-- `getattr(v, "period", None) or (v.get("period") if isinstance(v, dict) else None)`, and likewise
-- for the interval.
abbrev pub has_period : Setting → Bool
has_period v = elim (if v.is_object then if_truthy v.period else v.period) [
  | none ↦ false
  | some s ↦ true
]

abbrev pub has_interval : Setting → Bool
has_interval v = elim (if_truthy v.interval) [ none ↦ false | some s ↦ true ]

abbrev check_periods : (defaults intervals : Intervals) → Result PipelineError Intervals
check_periods defaults intervals =
    if all has_period (values (update defaults intervals)) then ok intervals else err no_period

abbrev check_intervals : Intervals → Result PipelineError Intervals
check_intervals [] = err no_intervals
check_intervals (i ∷ is) =
    if all has_interval (values (i ∷ is)) then ok (i ∷ is) else err no_interval

-- The defaults stand in for intervals that are missing or empty; missing ones go on to the loop.
abbrev complete : (defaults : Intervals) → Option Intervals → Result PipelineError Intervals
complete [] none = err no_intervals
complete (d ∷ ds) none = complete_all (d ∷ ds) (d ∷ ds)
complete [] (some []) = err no_intervals
complete (d ∷ ds) (some []) = ok (d ∷ ds)
complete defaults (some (i ∷ is)) = complete_all defaults (i ∷ is)

unfoldable pub apply_default_intervals :
    (defaults : Intervals) → (settings : Option Intervals) → Result PipelineError Intervals
apply_default_intervals defaults settings =
    complete defaults settings >>= check_periods defaults >>= check_intervals

unfoldable pub add_node : ProcessingNode → Pipeline → Result PipelineError Pipeline
add_node node p =
    if has_key node.name p.nodes
    then err duplicate
    else (apply_default_intervals p.default_intervals node.stream_settings >>= λ intervals.
        ok (record p {
          nodes = insert node.name (record node { stream_settings = some intervals }) p.nodes;
          execution_order = [];
        }))

unfoldable pub add_query_node : QueryNode → Pipeline → Result PipelineError Pipeline
add_query_node node p =
    if has_key node.name p.nodes || has_key node.name p.query_nodes
    then err duplicate
    else (apply_default_intervals p.default_intervals node.stream_settings >>= λ intervals.
        ok (record p {
          query_nodes =
              insert node.name (record node { stream_settings = some intervals }) p.query_nodes;
          execution_order = [];
        }))
