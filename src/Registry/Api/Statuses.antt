-- ===== src/Registry/Api/Statuses.antt =====
-- dag_manager/registry/api.py: the statuses of nodes and the snapshots of pipelines.
use qmtl.Base.{String, Option, none, some, ◌==◌, if◌then◌else◌}
use qmtl.Registry.Services.{Op, ◌>>=◌, pure, http_exception, StrategySnapshot}
use qmtl.Registry.Services.Metadata.{MetadataService}
use qmtl.Registry.Api.{Reply, status, snapshot_id, snapshots, snapshot, found, shielded, not_found}

-- `not status` holds for none and for a falsy one, whose text is empty.
abbrev pub truthy : Option String → Option String
truthy none = none
truthy (some text) = if text == "" then none else some text

module _ {S : Type 0} (m : MetadataService S) where
  unfoldable pub get_node_status : String → Op S Reply
  get_node_status n = do
    o ← m.node_service.get_node_status n
    text ← found (not_found "노드 상태를 찾을 수 없습니다: " n) (truthy o)
    pure (status text)

  unfoldable pub update_node_status : (node_id status : String) → Op S Reply
  update_node_status n text =
      shielded "노드 상태 저장 중 내부 서버 오류가 발생했습니다"
        do done ← m.node_service.update_node_status n text; pure (status text)

  unfoldable pub create_strategy_snapshot : (version_id : String) → StrategySnapshot → Op S Reply
  create_strategy_snapshot v given =
      shielded "스냅샷 저장 중 내부 서버 오류가 발생했습니다"
        do id ← m.snapshot_service.create_snapshot given; pure (snapshot_id id)

  unfoldable pub list_strategy_snapshots : String → Op S Reply
  list_strategy_snapshots v =
      shielded "스냅샷 조회 중 내부 서버 오류가 발생했습니다"
        do all ← m.snapshot_service.get_snapshots v; pure (snapshots all)

  unfoldable pub rollback_strategy_to_snapshot : (version_id snapshot_id : String) → Op S Reply
  rollback_strategy_to_snapshot v id = shielded "롤백 중 내부 서버 오류가 발생했습니다" do
    o ← m.snapshot_service.rollback_to_snapshot v id
    back ← found (http_exception 404 "스냅샷을 찾을 수 없습니다") o
    pure (snapshot back)
