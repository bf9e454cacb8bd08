-- ===== src/Registry/Api/Calls/Errors.antt =====
-- How calls of the API can fail.
use qmtl.Base.{String, Bool, true, false, Result, ok, err, ◌≡◌, arith, Bool-cases, inl, inr}
use qmtl.Registry.Nodes.{ProtoNode, NodeService}
use qmtl.Registry.Services.{Exception, http_exception}
use qmtl.Registry.Services.Metadata.{MetadataService}
use qmtl.Registry.Api.Json.{Fields}
use qmtl.Registry.Api.{Reply, hidden, hide}
use qmtl.Registry.Api
use qmtl.Registry.Api.Create
use qmtl.Registry.Api.Create.{registered, register, as_http}
use qmtl.Registry.Api.Relations
use qmtl.Registry.Api.Statuses
use qmtl.Registry.Api.Calls.{
  Call, test_services, serve, create_node, update_node_status, create_strategy_snapshot,
  rollback_strategy_to_snapshot, list_strategy_snapshots, add_node_dependency,
  remove_node_dependency,
}

-- An answer, or a failure that has a status and a text of its own
abbrev pub is_http : Exception → Bool
is_http (http_exception code detail) = true
is_http e = false

abbrev pub IsHttp : {A : Type 0} → Result Exception A → Type 0
IsHttp (ok a) = Unit
IsHttp (err e) = is_http e ≡ true

hide-is_http : (text : String) (e : Exception) → is_http (hide text e) ≡ true
hide-is_http text e = ground arith

as_http-is_http : (e : Exception) → is_http (as_http e) ≡ true
as_http-is_http e = ground arith

hidden-IsHttp :
    {S A : Type 0} (text : String) (r : S × Result Exception A) → IsHttp (hidden text r).1
hidden-IsHttp text (s, ok a) = tt
hidden-IsHttp text (s, err e) = hide-is_http text e

registered-IsHttp : {S A : Type 0} (r : S × Result Exception A) → IsHttp (registered r).1
registered-IsHttp (s, ok a) = tt
registered-IsHttp (s, err e) = as_http-is_http e

-- The calls whose handlers catch what the services raise
abbrev pub is_guarded : Call → Bool
is_guarded (create_node given) = true
is_guarded (update_node_status n text) = true
is_guarded (create_strategy_snapshot v given) = true
is_guarded (list_strategy_snapshots v) = true
is_guarded (rollback_strategy_to_snapshot v id) = true
is_guarded (add_node_dependency n d) = true
is_guarded (remove_node_dependency n d) = true
is_guarded _ = false

module _ {S : Type 0} (parse : Fields → Result Exception ProtoNode) (m : MetadataService S) where
  pub serve-IsHttp : (c : Call) (s : S) → is_guarded c ≡ true → IsHttp (serve parse m c s).1
  unfolding serve Create.create_node Statuses.update_node_status Statuses.create_strategy_snapshot
      Statuses.list_strategy_snapshots Statuses.rollback_strategy_to_snapshot
      Relations.add_node_dependency Relations.remove_node_dependency
  serve-IsHttp (create_node given) s g = registered-IsHttp (register parse m.node_service given s)
  serve-IsHttp (update_node_status n text) s g = hidden-IsHttp _ _
  serve-IsHttp (create_strategy_snapshot v given) s g = hidden-IsHttp _ _
  serve-IsHttp (list_strategy_snapshots v) s g = hidden-IsHttp _ _
  serve-IsHttp (rollback_strategy_to_snapshot v id) s g = hidden-IsHttp _ _
  serve-IsHttp (add_node_dependency n d) s g = hidden-IsHttp _ _
  serve-IsHttp (remove_node_dependency n d) s g = hidden-IsHttp _ _
  serve-IsHttp _ s g = cc

module _ (parse : Fields → Result Exception ProtoNode) (b : Bool) where
  -- On the services of the test mode every call answers or fails with an HTTP error; none is left to the
  -- server.
  pub serve-test_services :
      (c : Call) (s : NodeService) → IsHttp (serve parse (test_services b) c s).1
  unfolding serve Api.get_node Api.delete_node Api.get_pipeline_dag Api.get_ready_nodes
      Api.get_leaf_nodes Api.get_nodes_by_tags Api.get_strategy Api.list_strategies
      Relations.add_node_to_strategy Relations.remove_node_from_strategy
      Relations.get_node_reference_count Relations.get_node_reference_strategies
      Relations.get_strategy_nodes Relations.get_node_dependencies Statuses.get_node_status
  serve-test_services c s = elim (Bool-cases (is_guarded c)) [
    | inl guarded ↦ serve-IsHttp parse (test_services b) c s guarded
    | inr bare ↦ ground arith
  ]
