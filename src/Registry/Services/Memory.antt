-- ===== src/Registry/Services/Memory.antt =====
-- The in-memory node service as an implementation of the interface.
use qmtl.Base.{String, Bool, Result, ok, err}
use qmtl.Registry.Nodes
use qmtl.Registry.Nodes.{NodeService, NameError, name_error}
use qmtl.Registry.Nodes.Query
use qmtl.Registry.Services.{Exception, other, gets, modify, NodeManagementService}
use qmtl.Registry.Services.Validation.{validate_proto_node}

-- `NameError` is one of the exceptions that nobody names.
abbrev pub stored :
    NodeService → Result NameError (NodeService × String) → NodeService × Result Exception String
stored s (ok (s', id)) = (s', ok id)
stored s (err (name_error name)) = (s, err (other name))

abbrev flip : NodeService × Bool → NodeService × Result Exception Bool
flip (s, b) = (s, ok b)

abbrev pub memory : (is_sequence : Bool) → NodeManagementService NodeService
memory is_sequence = record {
  create_node = λ node s. stored s (Nodes.create_node node s);
  get_node = λ id. gets (Nodes.get_node id);
  delete_node = λ id s. flip (Nodes.delete_node id s);
  list_nodes = gets Query.list_nodes;
  list_zero_deps = gets Query.list_zero_deps;
  list_by_tags = λ tags interval period mode. gets (Query.list_by_tags tags interval period mode);
  add_contains_relationship = λ v n. modify (Nodes.add_contains_relationship v n);
  remove_contains_relationship = λ v n. modify (Nodes.remove_contains_relationship v n);
  get_node_ref_count = λ n. gets (Nodes.get_node_ref_count n);
  get_node_ref_strategies = λ n. gets (Nodes.get_node_ref_strategies n);
  get_strategy_nodes = λ v. gets (Nodes.get_strategy_nodes v);
  get_node_status = λ n. gets (Nodes.get_node_status n);
  update_node_status = λ n status. modify (Nodes.update_node_status n status);
  get_node_dependencies = λ n. gets (Nodes.get_node_dependencies n);
  add_dependency = λ n d. modify (Nodes.add_dependency n d);
  remove_dependency = λ n d. modify (Nodes.remove_dependency n d);
  validate_node = λ node s. (s, validate_proto_node is_sequence node);
}
