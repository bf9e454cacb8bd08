-- ===== src/Registry/Api/Relations.antt =====
-- dag_manager/registry/api.py: which strategy version contains which node, and which node depends on which.
use qmtl.Base.{String}
use qmtl.Registry.Nodes.{ProtoNode}
use qmtl.Registry.Services.{Op, ◌>>=◌, pure}
use qmtl.Registry.Services.Metadata.{MetadataService, get_node, get_strategy}
use qmtl.Registry.Api.{
  Reply, success, nodes, dependencies, ref_count, strategy_version_ids, found, shielded,
  node_missing, dependency_missing, strategy_missing,
}

module _ {S : Type 0} (m : MetadataService S) where
  -- `if not node: raise HTTPException(404, ...)`
  abbrev known : String → Op S ProtoNode
  known id = do o ← get_node m id; found (node_missing id) o

  unfoldable pub add_node_to_strategy : (strategy_version_id node_id : String) → Op S Reply
  add_node_to_strategy v n = do
    node ← known n
    o ← get_strategy m v
    strategy ← found (strategy_missing v) o
    added ← m.node_service.add_contains_relationship v n
    pure success

  unfoldable pub remove_node_from_strategy : (strategy_version_id node_id : String) → Op S Reply
  remove_node_from_strategy v n = do
    removed ← m.node_service.remove_contains_relationship v n
    pure success

  unfoldable pub get_node_reference_count : String → Op S Reply
  get_node_reference_count n = do
    node ← known n
    count ← m.node_service.get_node_ref_count n
    pure (ref_count count)

  unfoldable pub get_node_reference_strategies : String → Op S Reply
  get_node_reference_strategies n = do
    node ← known n
    vs ← m.node_service.get_node_ref_strategies n
    pure (strategy_version_ids vs)

  unfoldable pub get_strategy_nodes : String → Op S Reply
  get_strategy_nodes v = do
    o ← get_strategy m v
    strategy ← found (strategy_missing v) o
    ns ← m.node_service.get_strategy_nodes v
    pure (nodes ns)

  unfoldable pub get_node_dependencies : String → Op S Reply
  get_node_dependencies n = do
    node ← known n
    ds ← m.node_service.get_node_dependencies n
    pure (dependencies ds)

  -- Both nodes must exist.
  abbrev both_known : (node_id dependency_id : String) → Op S ProtoNode
  both_known n d = do node ← known n; o ← get_node m d; found (dependency_missing d) o

  unfoldable pub add_node_dependency : (node_id dependency_id : String) → Op S Reply
  add_node_dependency n d =
      shielded "노드 의존성 추가 중 내부 서버 오류가 발생했습니다"
        do dep ← both_known n d; added ← m.node_service.add_dependency n d; pure success

  unfoldable pub remove_node_dependency : (node_id dependency_id : String) → Op S Reply
  remove_node_dependency n d =
      shielded "노드 의존성 삭제 중 내부 서버 오류가 발생했습니다"
        do dep ← both_known n d; removed ← m.node_service.remove_dependency n d; pure success
