-- ===== src/Registry/Api/Calls.antt =====
-- dag_manager/registry/api.py: the API as a whole, on the services of the test mode, where the routes have
-- chosen the handler and its arguments. Health checks, templates and partial updates reach no service.
pub mod Errors
pub mod Links
pub mod Nodes
use qmtl.Base.{String, List, [], ◌∷◌, Bool, Option, Result}
use qmtl.Registry.Nodes.{ProtoNode, NodeService}
use qmtl.Registry.Services.{
  Exception, Op, StrategySnapshot, stub_strategy_service, dummy_snapshot_service,
}
use qmtl.Registry.Services.Memory.{memory}
use qmtl.Registry.Services.Metadata.{MetadataService}
use qmtl.Registry.Api.Json.{Json, Fields}
use qmtl.Registry.Api
use qmtl.Registry.Api.{Reply}
use qmtl.Registry.Api.Create
use qmtl.Registry.Api.Relations
use qmtl.Registry.Api.Statuses

-- `get_metadata_service` in the test mode; the node service is shared by all calls.
abbrev pub test_services : (is_sequence : Bool) → MetadataService NodeService
test_services is_sequence = record {
  node_service = memory is_sequence;
  strategy_service = stub_strategy_service;
  snapshot_service = dummy_snapshot_service;
}

pub data Call : Type 0 where
  create_node : Option Json → Call
  get_node delete_node get_node_reference_count get_node_reference_strategies : String → Call
  get_node_dependencies get_node_status get_strategy get_strategy_nodes : String → Call
  get_pipeline_dag get_ready_nodes list_strategy_snapshots : String → Call
  get_leaf_nodes list_strategies : Call
  get_nodes_by_tags : (tags : List String) (interval period : Option String) (mode : String) → Call
  add_node_to_strategy remove_node_from_strategy : (strategy_version_id node_id : String) → Call
  add_node_dependency remove_node_dependency : (node_id dependency_id : String) → Call
  update_node_status : (node_id status : String) → Call
  create_strategy_snapshot : String → StrategySnapshot → Call
  rollback_strategy_to_snapshot : (version_id snapshot_id : String) → Call

module _ {S : Type 0} (parse : Fields → Result Exception ProtoNode) (m : MetadataService S) where
  unfoldable pub serve : Call → Op S Reply
  serve (create_node given) = Create.create_node parse m.node_service given
  serve (get_node n) = Api.get_node m.node_service n
  serve (delete_node n) = Api.delete_node m.node_service n
  serve (get_node_reference_count n) = Relations.get_node_reference_count m n
  serve (get_node_reference_strategies n) = Relations.get_node_reference_strategies m n
  serve (get_node_dependencies n) = Relations.get_node_dependencies m n
  serve (get_node_status n) = Statuses.get_node_status m n
  serve (get_strategy v) = Api.get_strategy m v
  serve (get_strategy_nodes v) = Relations.get_strategy_nodes m v
  serve (get_pipeline_dag p) = Api.get_pipeline_dag m p
  serve (get_ready_nodes p) = Api.get_ready_nodes m p
  serve (list_strategy_snapshots v) = Statuses.list_strategy_snapshots m v
  serve get_leaf_nodes = Api.get_leaf_nodes m
  serve list_strategies = Api.list_strategies m
  serve (get_nodes_by_tags tags interval period mode) =
      Api.get_nodes_by_tags m tags interval period mode
  serve (add_node_to_strategy v n) = Relations.add_node_to_strategy m v n
  serve (remove_node_from_strategy v n) = Relations.remove_node_from_strategy m v n
  serve (add_node_dependency n d) = Relations.add_node_dependency m n d
  serve (remove_node_dependency n d) = Relations.remove_node_dependency m n d
  serve (update_node_status n status) = Statuses.update_node_status m n status
  serve (create_strategy_snapshot v given) = Statuses.create_strategy_snapshot m v given
  serve (rollback_strategy_to_snapshot v id) = Statuses.rollback_strategy_to_snapshot m v id

  -- The state after a sequence of calls, whether they answer or raise
  unfoldable pub serve_all : S → List Call → S
  serve_all s [] = s
  serve_all s (c ∷ cs) = serve_all (serve c s).0 cs
