-- ===== src/Registry/Api/Calls/Links.antt =====
-- What sequences of calls of the API do to the relation between strategy versions and nodes.
use qmtl.Base.{
  String, List, [], ◌∷◌, ◌++◌, ap, ◌∙◌, Bool, Option, Result, ok, err, ◌≡◌, refl, sym, Result-cases,
  arith, lookup, Option-cases, inl, inr, subst,
}
use qmtl.Registry.Links.{unlink}
use qmtl.Registry.Nodes.{
  ProtoNode, NodeService, new_service, add_contains_relationship, remove_contains_relationship,
  get_node_ref_count,
}
use qmtl.Registry.Nodes
use qmtl.Registry.Nodes.Linked.{IsLinked, new_service-IsLinked}
use qmtl.Registry.Nodes.Run
use qmtl.Registry.Nodes.Run.{run, step, run_from-IsLinked}
use qmtl.Registry.Services.{Exception}
use qmtl.Registry.Services.Memory.{memory}
use qmtl.Registry.Services.Validation.{validate_proto_node}
use qmtl.Registry.Api.Json.{Json, Fields}
use qmtl.Registry.Api
use qmtl.Registry.Api.Create
use qmtl.Registry.Api.Relations
use qmtl.Registry.Api.Statuses
use qmtl.Registry.Api.Calls.{
  Call, test_services, serve, serve_all, create_node, get_node, delete_node,
  get_node_reference_count, get_node_reference_strategies, get_node_dependencies, get_node_status,
  get_strategy, get_strategy_nodes, get_pipeline_dag, get_ready_nodes, list_strategy_snapshots,
  get_leaf_nodes, list_strategies, get_nodes_by_tags, add_node_to_strategy,
  remove_node_from_strategy, add_node_dependency, remove_node_dependency, update_node_status,
  create_strategy_snapshot, rollback_strategy_to_snapshot,
}

abbrev AddsNoLink : Run.Call → Type 0
AddsNoLink (Run.add_link v n) = ⊥
AddsNoLink _ = Unit

abbrev AddNoLink : List Run.Call → Type 0
AddNoLink [] = Unit
AddNoLink (c ∷ cs) = AddsNoLink c × AddNoLink cs

-- The state is reached by calls of the node service, none of which links a node to a strategy version.
abbrev Follows : NodeService → NodeService → Type 0
Follows s t = (cs : List Run.Call) × AddNoLink cs × (run s cs ≡ t)

api : Unit {0}
unfolding serve Create.create_node Api.get_node Api.delete_node Api.get_pipeline_dag
    Api.get_ready_nodes Api.get_leaf_nodes Api.get_nodes_by_tags Api.get_strategy
    Api.list_strategies Relations.add_node_to_strategy Relations.remove_node_from_strategy
    Relations.get_node_reference_count Relations.get_node_reference_strategies
    Relations.get_strategy_nodes Relations.get_node_dependencies Relations.add_node_dependency
    Relations.remove_node_dependency Statuses.get_node_status Statuses.update_node_status
    Statuses.create_strategy_snapshot Statuses.list_strategy_snapshots
    Statuses.rollback_strategy_to_snapshot run step
api = tt

registered-state :
    {A : Type 0} (r : NodeService × Result Exception A) → (Create.registered r).0 ≡ r.0
registered-state (s, ok a) = refl
registered-state (s, err e) = refl

run-append : (s : NodeService) (cs ds : List Run.Call) → run s (cs ++ ds) ≡ run (run s cs) ds
unfolding run
run-append s [] ds = refl
run-append s (c ∷ cs) ds = run-append (step s c) cs ds

AddNoLink-append : (cs ds : List Run.Call) → AddNoLink cs → AddNoLink ds → AddNoLink (cs ++ ds)
AddNoLink-append [] ds h k = k
AddNoLink-append (c ∷ cs) ds h k = (h.0, AddNoLink-append cs ds h.1 k)

abbrev HasNoLinks : NodeService → Type 0
HasNoLinks s = (s.node_strategy_map ≡ []) × (s.strategy_node_map ≡ [])

step-HasNoLinks :
    (c : Run.Call) (s : NodeService) → AddsNoLink c → HasNoLinks s → HasNoLinks (step s c)
unfolding step
step-HasNoLinks (Run.create node) s a h = unfold Nodes.create_node in ground arith
step-HasNoLinks (Run.delete n) s a h = unfold Nodes.delete_node lookup in ground arith
step-HasNoLinks (Run.add_link v n) s a h = absurd a
step-HasNoLinks (Run.remove_link v n) s a h =
    unfold Nodes.remove_contains_relationship unlink lookup in ground arith
step-HasNoLinks (Run.set_status n status) s a h = unfold Nodes.update_node_status in h
step-HasNoLinks (Run.add_dep n d) s a h = unfold Nodes.add_dependency in ground arith
step-HasNoLinks (Run.remove_dep n d) s a h = unfold Nodes.remove_dependency in ground arith

run-HasNoLinks :
    (cs : List Run.Call) (s : NodeService) → AddNoLink cs → HasNoLinks s → HasNoLinks (run s cs)
unfolding run
run-HasNoLinks [] s a h = h
run-HasNoLinks (c ∷ cs) s a h = run-HasNoLinks cs (step s c) a.1 (step-HasNoLinks c s a.0 h)

module _ (parse : Fields → Result Exception ProtoNode) (b : Bool) where
  register-Follows :
      (given : Option Json) (s : NodeService)
      → Follows s (Create.register parse (memory b) given s).0
  unfolding api
  register-Follows given s = elim (Result-cases (Create.normalize given)) [
    | inr (e, raised) ↦ ([], tt, ground arith)
    | inl (fields, normal) ↦ elim (Result-cases (parse fields)) [
      | inr (e, raised) ↦ ([], tt, ground arith)
      | inl (node, parsed) ↦ elim (Result-cases (validate_proto_node b node)) [
        | inr (e, raised) ↦ ([], tt, ground arith)
        | inl (u, valid) ↦
            (Run.create node ∷ [], (tt, tt), unfold Nodes.create_node in ground arith)
      ]
    ]
  ]

  serve-Follows : (c : Call) (s : NodeService) → Follows s (serve parse (test_services b) c s).0
  unfolding api
  serve-Follows (create_node given) s =
      subst (Follows s) (sym (registered-state (Create.register parse (memory b) given s)))
        (register-Follows given s)
  serve-Follows (get_node n) s = ([], tt, ground arith)
  serve-Follows (delete_node n) s = (Run.delete n ∷ [], (tt, tt), ground arith)
  serve-Follows (get_node_reference_count n) s = ([], tt, ground arith)
  serve-Follows (get_node_reference_strategies n) s = ([], tt, ground arith)
  serve-Follows (get_node_dependencies n) s = ([], tt, ground arith)
  serve-Follows (get_node_status n) s = ([], tt, ground arith)
  serve-Follows (get_strategy v) s = ([], tt, refl)
  serve-Follows (get_strategy_nodes v) s = ([], tt, refl)
  serve-Follows (get_pipeline_dag p) s = ([], tt, refl)
  serve-Follows (get_ready_nodes p) s = ([], tt, refl)
  serve-Follows (list_strategy_snapshots v) s = ([], tt, refl)
  serve-Follows get_leaf_nodes s = ([], tt, refl)
  serve-Follows list_strategies s = ([], tt, refl)
  serve-Follows (get_nodes_by_tags tags interval period mode) s = ([], tt, ground arith)
  serve-Follows (add_node_to_strategy v n) s = ([], tt, ground arith)
  serve-Follows (remove_node_from_strategy v n) s = (Run.remove_link v n ∷ [], (tt, tt), refl)
  serve-Follows (add_node_dependency n d) s = elim (Option-cases (lookup n s.nodes)) [
    | inl absent ↦ ([], tt, unfold Nodes.get_node in ground arith)
    | inr (node, here) ↦ elim (Option-cases (lookup d s.nodes)) [
      | inl absent ↦ ([], tt, unfold Nodes.get_node in ground arith)
      | inr (dep, there) ↦ (Run.add_dep n d ∷ [], (tt, tt), unfold Nodes.get_node in ground arith)
    ]
  ]
  serve-Follows (remove_node_dependency n d) s = elim (Option-cases (lookup n s.nodes)) [
    | inl absent ↦ ([], tt, unfold Nodes.get_node in ground arith)
    | inr (node, here) ↦ elim (Option-cases (lookup d s.nodes)) [
      | inl absent ↦ ([], tt, unfold Nodes.get_node in ground arith)
      | inr (dep, there) ↦
          (Run.remove_dep n d ∷ [], (tt, tt), unfold Nodes.get_node in ground arith)
    ]
  ]
  serve-Follows (update_node_status n status) s = (Run.set_status n status ∷ [], (tt, tt), refl)
  serve-Follows (create_strategy_snapshot v given) s = ([], tt, refl)
  serve-Follows (rollback_strategy_to_snapshot v id) s = ([], tt, refl)

  serve_all-Follows :
      (cs : List Call) (s : NodeService) → Follows s (serve_all parse (test_services b) s cs)
  unfolding serve_all run
  serve_all-Follows [] s = ([], tt, refl)
  serve_all-Follows (c ∷ cs) s =
      let (first, plain, at_first) = serve-Follows c s in
      let (rest, plain', at_end) = serve_all-Follows cs (serve parse (test_services b) c s).0 in
      (
        first ++ rest,
        AddNoLink-append first rest plain plain',
        run-append s first rest ∙ ap (λ t. run t rest) at_first ∙ at_end,
      )

  -- After any sequence of calls of the API, answered or refused, on a new node service, the two maps between nodes
  -- and strategy versions hold the same pairs, each once, and only pairs of nodes that exist.
  pub serve_all-IsLinked :
      (cs : List Call) → IsLinked (serve_all parse (test_services b) new_service cs)
  serve_all-IsLinked cs =
      let (calls, plain, same) = serve_all-Follows cs new_service in
      subst IsLinked same (run_from-IsLinked new_service calls new_service-IsLinked)

  -- No sequence of calls of the API, answered or refused, on a new node service ever makes a strategy version
  -- contain a node: the count of references is 0 for each node.
  pub serve_all-get_node_ref_count :
      (cs : List Call) (n : String)
      → get_node_ref_count n (serve_all parse (test_services b) new_service cs) ≡ 0
  unfolding get_node_ref_count
  serve_all-get_node_ref_count cs n =
      let (calls, plain, same) = serve_all-Follows cs new_service in
      let (no_refs, no_members) =
        subst HasNoLinks same (run-HasNoLinks calls new_service plain (refl, refl)) in
      rw no_refs (unfold lookup in refl)
