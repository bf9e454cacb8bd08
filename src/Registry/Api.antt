-- ===== src/Registry/Api.antt =====
-- dag_manager/registry/api.py: the HTTP API of the registry. Its handlers run over the services' records,
-- so that they are the same for each implementation.
pub mod Json
pub mod Names
pub mod Create
pub mod Relations
pub mod Statuses
pub mod Skeletons
pub mod Paths
pub mod Routes
pub mod Clients
pub mod Events
pub mod Calls
use Prim.Native.String
use qmtl.Base.{
  ℕ, String, List, [], ◌∷◌, Option, none, some, ◌==◌, ◌||◌, not, if◌then◌else◌, Result, ok, err,
}
use qmtl.Registry.Nodes.{ProtoNode}
use qmtl.Registry.Services.{
  Exception, http_exception, http_error, validation_error, not_found_error, auth_error,
  database_error, registry_service_error, other, Op, ◌>>=◌, pure, raise, NodeManagementService,
  StrategyVersion, StrategySnapshot,
}
use qmtl.Registry.Services.Metadata.{MetadataService, get_dag}
use qmtl.Registry.Services.Metadata

-- What a handler returns; FastAPI writes it as JSON.
pub data Reply : Type 0 where
  node_id : String → Reply
  node : ProtoNode → Reply
  nodes : List ProtoNode → Reply
  snapshot_nodes : List String → Reply
  dag : StrategySnapshot → Reply
  success : Reply
  dependencies : List String → Reply
  ref_count : ℕ → Reply
  strategy_version_ids : List String → Reply
  status : String → Reply
  strategy : StrategyVersion → Reply
  strategies : List StrategyVersion → Reply
  snapshot_id : String → Reply
  snapshots : List StrategySnapshot → Reply
  snapshot : StrategySnapshot → Reply

-- `qmtl_exception_handler` and the handler of `HTTPException` (common/errors/handlers.py): the status and
-- the detail of the response, or nothing where the exception is left to the server.
unfoldable pub respond : Exception → Option (ℕ × String)
respond (http_exception code detail) = some (code, detail)
respond (http_error code detail) = some (code, detail)
respond (validation_error text) = some (422, text)
respond (not_found_error text) = some (404, text)
respond (auth_error text) = some (401, text)
respond (database_error text) = some (500, text)
respond (registry_service_error text) = some (500, text)
respond (other text) = none

abbrev pub not_found : String → String → Exception
not_found text id = http_exception 404 (String.◌++◌ text id)

-- `if not x: raise HTTPException(404, ...)`
abbrev pub found : {S A : Type 0} → Exception → Option A → Op S A
found e none = raise e
found e (some a) = pure a

-- `except HTTPException: raise` and `except Exception: raise HTTPException(500, ...)`
abbrev pub hide : String → Exception → Exception
hide text (http_exception code detail) = http_exception code detail
hide text e = http_exception 500 text

abbrev pub hidden : {S A : Type 0} → String → S × Result Exception A → S × Result Exception A
hidden text (s, ok a) = (s, ok a)
hidden text (s, err e) = (s, err (hide text e))

abbrev pub shielded : {S A : Type 0} → String → Op S A → Op S A
shielded text m = λ s. hidden text (m s)

abbrev pub node_missing : String → Exception
node_missing = not_found "노드를 찾을 수 없습니다: "

abbrev pub dependency_missing : String → Exception
dependency_missing = not_found "의존성 노드를 찾을 수 없습니다: "

abbrev pub strategy_missing : String → Exception
strategy_missing = not_found "전략을 찾을 수 없습니다: "

abbrev pub snapshot_missing : String → Exception
snapshot_missing = not_found "파이프라인 스냅샷 없음: "

module _ {S : Type 0} (svc : NodeManagementService S) where
  unfoldable pub get_node : String → Op S Reply
  get_node id = do o ← svc.get_node id; n ← found (node_missing id) o; pure (node n)

  unfoldable pub delete_node : String → Op S Reply
  delete_node id = do
    done ← svc.delete_node id
    if done then pure success else raise (node_missing id)

module _ {S : Type 0} (m : MetadataService S) where
  unfoldable pub get_pipeline_dag : String → Op S Reply
  get_pipeline_dag id = do o ← get_dag m id; d ← found (snapshot_missing id) o; pure (dag d)

  unfoldable pub get_ready_nodes : String → Op S Reply
  get_ready_nodes id = do
    o ← get_dag m id
    d ← found (snapshot_missing id) o
    pure (snapshot_nodes d.nodes)

  unfoldable pub get_leaf_nodes : Op S Reply
  get_leaf_nodes = do ns ← m.node_service.list_zero_deps; pure (nodes ns)

  unfoldable pub get_nodes_by_tags :
      List String → (interval period : Option String) → (match_mode : String) → Op S Reply
  get_nodes_by_tags tags interval period match_mode =
      if not ((match_mode == "AND") || (match_mode == "OR"))
      then raise (http_exception 422 "match_mode는 'AND' 또는 'OR'이어야 합니다")
      else do ns ← m.node_service.list_by_tags tags interval period match_mode; pure (nodes ns)

  unfoldable pub get_strategy : String → Op S Reply
  get_strategy id = do
    o ← Metadata.get_strategy m id
    v ← found (strategy_missing id) o
    pure (strategy v)

  unfoldable pub list_strategies : Op S Reply
  list_strategies = do vs ← m.strategy_service.list_strategies; pure (strategies vs)
