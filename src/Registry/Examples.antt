-- ===== src/Registry/Examples.antt =====
-- A small registry, and the theorems at it.
use qmtl.Base.{String, List, [], ◌∷◌, ◌≡◌, refl, none, some, err, lookup, insert, erase}
use qmtl.Registry.Links.{link, unlink, unlink_all}
use qmtl.Registry.Nodes.{
  add_dependency, ProtoNode, NodeService, text, plain, new_service, create_node, delete_node,
  add_contains_relationship, remove_contains_relationship, get_node_ref_count,
  get_node_ref_strategies, name_error,
}
use qmtl.Registry.Nodes.Linked.{IsLinked}
use qmtl.Registry.Nodes.Run.{Call, create, add_link, add_dep, step, run, run-IsLinked}
use qmtl.Registry.Nodes.Spec.{no_nodes, spec_run, Implements}
use qmtl.Registry.Nodes.Spec.Refines.{run-Implements}
use qmtl.Registry.Nodes.Query.{list_by_tags}

abbrev node : String → ProtoNode
node id = record {
  node_id = id;
  dependencies = [];
  tags = some (record { predefined = plain (text "RAW") ∷ []; custom = "x" ∷ [] });
  interval_settings = none;
}

abbrev calls : List Call
calls =
    create (node "a")
    ∷ create (node "b")
    ∷ add_link "s1" "a"
    ∷ add_link "s2" "a"
    ∷ add_link "s1" "b"
    ∷ add_dep "a" "b"
    ∷ []

program : Unit {0}
unfolding run step create_node delete_node add_contains_relationship remove_contains_relationship
    link unlink unlink_all add_dependency lookup insert erase get_node_ref_count
    get_node_ref_strategies list_by_tags
program = tt

abbrev service : NodeService
service = run new_service calls

service-IsLinked : IsLinked service
service-IsLinked = run-IsLinked calls

run-IsLinked_example : IsLinked (run new_service calls)
run-IsLinked_example = run-IsLinked calls

two_references : get_node_ref_count "a" service ≡ 2
unfolding program
two_references = refl

untagged : create_node (record (node "a") { tags = none }) new_service ≡ err (name_error "NodeTags")
unfolding program
untagged = refl

run-Implements_example : Implements (run new_service calls) (spec_run no_nodes calls)
run-Implements_example = run-Implements calls
