-- ===== src/Registry/Nodes/Run.antt =====
-- The node service over a sequence of calls.
use qmtl.Base.{String, List, [], ◌∷◌, ◌≡◌, refl, ok, Result, err}
use qmtl.Registry.Nodes.{
  NameError, ProtoNode, NodeService, new_service, create_node, delete_node,
  add_contains_relationship, remove_contains_relationship, update_node_status, add_dependency,
  remove_dependency,
}
use qmtl.Registry.Nodes.Linked.{
  IsLinked, same_links, new_service-IsLinked, create_node-IsLinked,
  add_contains_relationship-IsLinked, remove_contains_relationship-IsLinked, delete_node-IsLinked,
  add_dependency-IsLinked, remove_dependency-IsLinked,
}

-- The calls that change the service.
pub data Call : Type 0 where
  create : ProtoNode → Call
  delete : String → Call
  add_link remove_link : (strategy_version_id node_id : String) → Call
  set_status : (node_id status : String) → Call
  add_dep remove_dep : (node_id dependency_id : String) → Call

-- A call that raises leaves the service as it was.
abbrev pub created : NodeService → Result NameError (NodeService × String) → NodeService
created s (ok (s', _)) = s'
created s (err e) = s

unfoldable pub step : NodeService → Call → NodeService
step s (create node) = created s (create_node node s)
step s (delete n) = (delete_node n s).0
step s (add_link v n) = add_contains_relationship v n s
step s (remove_link v n) = remove_contains_relationship v n s
step s (set_status n status) = update_node_status n status s
step s (add_dep n d) = add_dependency n d s
step s (remove_dep n d) = remove_dependency n d s

unfoldable pub run : NodeService → List Call → NodeService
run s [] = s
run s (c ∷ cs) = run (step s c) cs

pub step-IsLinked : (s : NodeService) (c : Call) → IsLinked s → IsLinked (step s c)
unfolding step
step-IsLinked s (create node) l = keep (create_node node s) refl
  where
    keep :
        (r : Result NameError (NodeService × String))
        → create_node node s ≡ r
        → IsLinked (created s r)
    keep (ok (s', id)) h = create_node-IsLinked node s s' id h l
    keep (err e) h = l
step-IsLinked s (delete n) l = delete_node-IsLinked n s l
step-IsLinked s (add_link v n) l = add_contains_relationship-IsLinked v n s l
step-IsLinked s (remove_link v n) l = remove_contains_relationship-IsLinked v n s l
step-IsLinked s (set_status n status) l =
    same_links s (update_node_status n status s) (unfold update_node_status in refl)
      (unfold update_node_status in refl) (λ m h. unfold update_node_status in h) l
step-IsLinked s (add_dep n d) l = add_dependency-IsLinked n d s l
step-IsLinked s (remove_dep n d) l = remove_dependency-IsLinked n d s l

pub run_from-IsLinked : (s : NodeService) (cs : List Call) → IsLinked s → IsLinked (run s cs)
unfolding run
run_from-IsLinked s [] l = l
run_from-IsLinked s (c ∷ cs) l = run_from-IsLinked (step s c) cs (step-IsLinked s c l)

-- After any sequence of calls on a new service the two maps hold the same pairs, no list holds a
-- name twice, and every node that a strategy version contains exists.
pub run-IsLinked : (cs : List Call) → IsLinked (run new_service cs)
run-IsLinked cs = run_from-IsLinked new_service cs new_service-IsLinked
