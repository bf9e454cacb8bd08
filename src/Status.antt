-- ===== src/Status.antt =====
-- dag_manager/execution/status_service.py: the statuses of pipelines and their nodes. Its lock makes each method
-- one step; what a method did before it raises is kept. Messages go through protobuf's `MessageToDict` and
-- `ParseDict`, of which two answers are parameters: `both_names`, whether a dict may give an optional field under both
-- of its names, and `takes`, whether the results fit the fields that they are put into.
pub mod Progress
pub mod Times
mod Examples
use qmtl.Base.{
  ℕ, suc, ◌+◌, ◌*◌, String, List, [], ◌∷◌, Bool, true, false, ◌&&◌, ◌||◌, not, Option, none, some,
  ◌==◌, if◌then◌else◌, nat_eq, length, Dict, lookup, insert, erase, has_key, values, is_some,
  Result, ok, err,
}

pub record NodeStatus : Type 0 where
  pub node_id : String
  pub status : String
  pub start_time : Option ℕ
  pub end_time : Option ℕ

-- A percentage as a share, before it is rounded to one decimal: rounding keeps 0 and 100 and the order.
pub record Share : Type 0 where
  pub done : ℕ
  pub whole : ℕ

abbrev pub nothing_done : Share
nothing_done = record { done = 0; whole = 1 }

abbrev pub all_done : Share
all_done = record { done = 1; whole = 1 }

pub record PipelineStatus : Type 0 where
  pub pipeline_id : String
  pub status : String
  pub progress : Share
  pub params : Dict String
  pub start_time : ℕ
  pub last_update : ℕ
  pub end_time : Option ℕ

pub record StatusService : Type 0 where
  pub pipelines : Dict PipelineStatus
  pub nodes : Dict (Dict NodeStatus)

abbrev pub new_service : StatusService
new_service = record { pipelines = []; nodes = [] }

pub data StatusError : Type 0 where
  value_error : String → StatusError
  status_service_error : StatusError

abbrev pub Outcome : Type 0
Outcome = StatusService × Result StatusError (Unit {0})

abbrev pub is_done : String → Bool
is_done status = (status == "COMPLETED") || (status == "FAILED")

abbrev pending : String → NodeStatus
pending id = record { node_id = id; status = "PENDING"; start_time = none; end_time = none }

abbrev pending_nodes : List String → Dict NodeStatus → Dict NodeStatus
pending_nodes [] d = d
pending_nodes (id ∷ ids) d = pending_nodes ids (insert id (pending id) d)

unfoldable pub initialize_pipeline :
    (now : ℕ)
    → (pipeline_id : String) → (node_ids : List String) → (params : Dict String) → StatusService
    → StatusService
initialize_pipeline now pid ids params s = record {
  pipelines =
      insert pid
        (record {
          pipeline_id = pid;
          status = "PENDING";
          progress = nothing_done;
          params = params;
          start_time = now;
          last_update = now;
          end_time = none;
        })
        s.pipelines;
  nodes = insert pid (pending_nodes ids []) s.nodes;
}

abbrev with_status : (now : ℕ) → (status : String) → PipelineStatus → PipelineStatus
with_status now status p = record p {
  status = status;
  last_update = now;
  end_time = if is_done status then some now else p.end_time;
  progress = if status == "COMPLETED" then all_done else p.progress;
}

-- `takes` is read where a result is given.
unfoldable pub update_pipeline_status :
    (takes : Bool) → (now : ℕ) → (pipeline_id status : String) → StatusService → Outcome
update_pipeline_status takes now pid status s = elim (lookup pid s.pipelines) [
  | none ↦ (s, err (value_error pid))
  | some p ↦
      if takes
      then (record s { pipelines = insert pid (with_status now status p) s.pipelines }, ok tt)
      else (s, err status_service_error)
]

-- How many halves of a node's work are counted
abbrev pub halves : String → ℕ
halves status = if is_done status then 2 else if status == "RUNNING" then 1 else 0

abbrev pub sum_halves : Dict NodeStatus → ℕ
sum_halves [] = 0
sum_halves ((id, n) ∷ d) = halves n.status + sum_halves d

abbrev share_of : (now : ℕ) → Dict NodeStatus → PipelineStatus → PipelineStatus
share_of now d p = record p {
  progress = record { done = sum_halves d; whole = 2 * length d };
  last_update = now;
}

unfoldable pub update_pipeline_progress :
    (now : ℕ) → (pipeline_id : String) → StatusService → StatusService
update_pipeline_progress now pid s = elim (lookup pid s.nodes) [
  | none ↦ s
  | some [] ↦ s
  | some (n ∷ d) ↦ elim (lookup pid s.pipelines) [
    | none ↦ s
    | some p ↦ record s { pipelines = insert pid (share_of now (n ∷ d) p) s.pipelines }
  ]
]

-- The time is put under the name in snake case, where the dict may hold it under the other one.
abbrev pub stamp :
    (both_names : Bool) → (set : Bool) → (now : ℕ) → Option ℕ → Result StatusError (Option ℕ)
stamp both_names false now t = ok t
stamp both_names true now none = ok (some now)
stamp both_names true now (some t) = if both_names then ok (some now) else err status_service_error

abbrev with_times :
    (status : String)
    → NodeStatus
    → Result StatusError (Option ℕ)
    → Result StatusError (Option ℕ)
    → Result StatusError NodeStatus
with_times status n (ok start) (ok end) =
    ok (record n { status = status; start_time = start; end_time = end })
with_times status n (err e) end = err e
with_times status n (ok start) (err e) = err e

unfoldable pub updated_node :
    (both_names : Bool) → (now : ℕ) → (status : String) → NodeStatus → Result StatusError NodeStatus
updated_node both_names now status n =
    with_times status n (stamp both_names (status == "RUNNING") now n.start_time)
      (stamp both_names (is_done status) now n.end_time)

abbrev pub store_node :
    (now : ℕ)
    → (pipeline_id node_id : String) → Dict NodeStatus
    → StatusService
    → Result StatusError NodeStatus
    → Outcome
store_node now pid nid d s (err e) = (s, err e)
store_node now pid nid d s (ok n) = (
  update_pipeline_progress now pid (record s { nodes = insert pid (insert nid n d) s.nodes }),
  ok tt,
)

unfoldable pub update_node_status :
    (both_names takes : Bool)
    → (now : ℕ) → (pipeline_id node_id status : String) → StatusService
    → Outcome
update_node_status both_names takes now pid nid status s = elim (lookup pid s.nodes) [
  | none ↦ (s, err (value_error pid))
  | some d ↦ elim (lookup nid d) [
    | none ↦ (s, err (value_error nid))
    | some n ↦
        if takes
        then store_node now pid nid d s (updated_node both_names now status n)
        else (s, err status_service_error)
  ]
]

abbrev pub get_pipeline_status : (pipeline_id : String) → StatusService → Option PipelineStatus
get_pipeline_status pid s = lookup pid s.pipelines

abbrev pub get_all_node_statuses : (pipeline_id : String) → StatusService → Dict NodeStatus
get_all_node_statuses pid s = elim (lookup pid s.nodes) [ none ↦ [] | some d ↦ d ]

abbrev pub get_node_status : (pipeline_id node_id : String) → StatusService → Option NodeStatus
get_node_status pid nid s = lookup nid (get_all_node_statuses pid s)

unfoldable pub cleanup_pipeline : (pipeline_id : String) → StatusService → StatusService
cleanup_pipeline pid s = record { pipelines = erase pid s.pipelines; nodes = erase pid s.nodes }

abbrev cleanup_all : List String → StatusService → StatusService
cleanup_all [] s = s
cleanup_all (pid ∷ pids) s = cleanup_all pids (cleanup_pipeline pid s)

-- `older` stands for `pipeline.last_update < cutoff`, a protobuf timestamp against a `datetime`; `none` is the
-- `TypeError` of a class of timestamps that does not define the comparison. The first one that raises ends the call.
abbrev pub add_old : String → Option Bool → Option (List String) → Option (List String)
add_old pid none rest = none
add_old pid (some old) none = none
add_old pid (some old) (some pids) = some (if old then pid ∷ pids else pids)

abbrev pub old_ones :
    (older : PipelineStatus → Option Bool) → Dict PipelineStatus → Option (List String)
old_ones older [] = some []
old_ones older ((pid, p) ∷ d) = add_old pid (older p) (old_ones older d)

abbrev pub remove_old : StatusService → Option (List String) → StatusService × Option ℕ
remove_old s none = (s, none)
remove_old s (some old) = (cleanup_all old s, some (length old))

-- The number of the removed pipelines, or `none` where the call raises and nothing is removed
unfoldable pub cleanup_old_pipelines :
    (older : PipelineStatus → Option Bool) → StatusService → StatusService × Option ℕ
cleanup_old_pipelines older s = remove_old s (old_ones older s.pipelines)
