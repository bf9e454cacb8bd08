-- ===== src/Registry/Services/Metadata.antt =====
-- registry/services/metadata_service.py: the service through which the API reaches the others.
use qmtl.Base.{String, List, [], ◌∷◌, Option, none, some}
use qmtl.Registry.Nodes.{ProtoNode}
use qmtl.Registry.Services.{
  Op, ◌>>=◌, pure, NodeManagementService, StrategyManagementService, StrategySnapshotService,
  StrategyVersion, StrategySnapshot,
}

pub record MetadataService (S : Type 0) : Type 0 where
  pub node_service : NodeManagementService S
  pub strategy_service : StrategyManagementService S
  pub snapshot_service : StrategySnapshotService S

abbrev first : List StrategySnapshot → Option StrategySnapshot
first [] = none
first (dag ∷ dags) = some dag

module _ {S : Type 0} (m : MetadataService S) where
  abbrev pub create_node : ProtoNode → Op S (Unit {0})
  create_node node = do id ← m.node_service.create_node node; pure tt

  abbrev pub get_node : String → Op S (Option ProtoNode)
  get_node node_id = m.node_service.get_node node_id

  -- an upsert
  abbrev pub update_node : ProtoNode → Op S (Unit {0})
  update_node node = do id ← m.node_service.create_node node; pure tt

  abbrev pub delete_node : String → Op S (Unit {0})
  delete_node node_id = do done ← m.node_service.delete_node node_id; pure tt

  abbrev pub get_strategy : String → Op S (Option StrategyVersion)
  get_strategy pipeline_id = m.strategy_service.get_version pipeline_id

  abbrev pub create_dag : StrategySnapshot → Op S (Unit {0})
  create_dag dag = do id ← m.snapshot_service.create_snapshot dag; pure tt

  abbrev pub get_dag : String → Op S (Option StrategySnapshot)
  get_dag pipeline_id = do snaps ← m.snapshot_service.get_snapshots pipeline_id; pure (first snaps)

  abbrev pub update_dag : StrategySnapshot → Op S (Unit {0})
  update_dag dag = do id ← m.snapshot_service.create_snapshot dag; pure tt
