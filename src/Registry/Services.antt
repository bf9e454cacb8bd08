-- ===== src/Registry/Services.antt =====
-- dag_manager/registry/services: what the registry's services promise to the API, as records of operations
-- over the state of an implementation, and what an operation can raise (common/errors/exceptions.py).
pub mod Validation
pub mod Memory
pub mod Metadata
use qmtl.Base.{ℕ, String, List, [], Bool, Option, none, Result, ok, err}
use qmtl.Registry.Nodes.{ProtoNode}

pub data Exception : Type 0 where
  http_exception : (status_code : ℕ) (detail : String) → Exception
  http_error : (status_code : ℕ) (detail : String) → Exception
  validation_error not_found_error auth_error database_error registry_service_error :
      String → Exception
  other : String → Exception

-- An operation on a state `S`, which may raise; what it did before is kept.
abbrev pub Op : Type 0 → Type 0 → Type 0
Op S A = S → S × Result Exception A

abbrev pub continue :
    {S A B : Type 0} → (A → Op S B) → S × Result Exception A → S × Result Exception B
continue f (s, ok a) = f a s
continue f (s, err e) = (s, err e)

infixl 5 ◌>>=◌
abbrev pub ◌>>=◌ : {S A B : Type 0} → Op S A → (A → Op S B) → Op S B
m >>= f = λ s. continue f (m s)

abbrev pub pure : {S A : Type 0} → A → Op S A
pure a = λ s. (s, ok a)

abbrev pub raise : {S A : Type 0} → Exception → Op S A
raise e = λ s. (s, err e)

-- An operation that only reads, or that always succeeds
abbrev pub gets : {S A : Type 0} → (S → A) → Op S A
gets f = λ s. (s, ok (f s))

abbrev pub modify : {S : Type 0} → (S → S) → Op S (Unit {0})
modify f = λ s. (f s, ok tt)

-- `NodeManagementService`; what a status holds is opaque, and its text is empty where it is falsy.
pub record NodeManagementService (S : Type 0) : Type 0 where
  pub create_node : ProtoNode → Op S String
  pub get_node : String → Op S (Option ProtoNode)
  pub delete_node : String → Op S Bool
  pub list_nodes : Op S (List ProtoNode)
  pub list_zero_deps : Op S (List ProtoNode)
  pub list_by_tags : List String → Option String → Option String → String → Op S (List ProtoNode)
  pub add_contains_relationship : (strategy_version_id node_id : String) → Op S (Unit {0})
  pub remove_contains_relationship : (strategy_version_id node_id : String) → Op S (Unit {0})
  pub get_node_ref_count : String → Op S ℕ
  pub get_node_ref_strategies : String → Op S (List String)
  pub get_strategy_nodes : String → Op S (List ProtoNode)
  pub get_node_status : String → Op S (Option String)
  pub update_node_status : (node_id status : String) → Op S (Unit {0})
  pub get_node_dependencies : String → Op S (List String)
  pub add_dependency : (node_id dependency_id : String) → Op S (Unit {0})
  pub remove_dependency : (node_id dependency_id : String) → Op S (Unit {0})
  pub validate_node : ProtoNode → Op S (Unit {0})

-- A stored version of a strategy, of which the API reads only whether there is one
pub record StrategyVersion : Type 0 where
  pub strategy_code : String

pub record StrategyManagementService (S : Type 0) : Type 0 where
  pub get_version : String → Op S (Option StrategyVersion)
  pub list_strategies : Op S (List StrategyVersion)

-- `Neo4jStrategyManagementService` is a stub, and so is the service of the test mode.
abbrev pub stub_strategy_service : {S : Type 0} → StrategyManagementService S
stub_strategy_service = record { get_version = λ id. pure none; list_strategies = pure [] }

pub record StrategySnapshot : Type 0 where
  pub pipeline_id : String
  pub nodes : List String
  pub edges : List (String × String)
  pub metadata : List (String × String)

pub record StrategySnapshotService (S : Type 0) : Type 0 where
  pub create_snapshot : StrategySnapshot → Op S String
  pub get_snapshots : (pipeline_id : String) → Op S (List StrategySnapshot)
  pub rollback_to_snapshot : (pipeline_id snapshot_id : String) → Op S (Option StrategySnapshot)

-- `_DummySnapshotService`, the service of the test mode
abbrev pub dummy_snapshot_service : {S : Type 0} → StrategySnapshotService S
dummy_snapshot_service = record {
  create_snapshot = λ snapshot. pure "dummy-snapshot";
  get_snapshots = λ pipeline_id. pure [];
  rollback_to_snapshot = λ pipeline_id snapshot_id. pure none;
}
