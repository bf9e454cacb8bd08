-- ===== src/Registry/Services/Validation.antt =====
-- registry/services/node/validation.py: what the registry asks of a node before it stores it.
use Prim.Native.String
use qmtl.Base.{
  String, List, [], ◌∷◌, Bool, true, false, not, ◌||◌, nat_eq, Result, ok, err, if◌then◌else◌, ◌==◌,
}
use qmtl.Registry.Nodes.{ProtoNode}
use qmtl.Registry.Services.{Exception, validation_error}

-- `len(id) == 32`, in characters
abbrev pub has_id_length : String → Bool
has_id_length id = nat_eq (String.count id) 32

abbrev pub is_empty : List String → Bool
is_empty [] = true
is_empty (d ∷ ds) = false

abbrev pub bad_dependency : String → Exception
bad_dependency dep =
    validation_error
      (String.◌++◌ "dependency '" (String.◌++◌ dep "' must be a 32-character hex string"))

abbrev pub check_each : List String → Result Exception (Unit {0})
check_each [] = ok tt
check_each (d ∷ ds) = if not (has_id_length d) then err (bad_dependency d) else check_each ds

-- The branch of `validate_proto_node` for a protobuf message. `is_sequence` says whether the container that
-- protobuf gives for a repeated field is a Python list or tuple. The fields of a message have the
-- types of the schema, so that the tests of the tags and of the interval pass.
unfoldable pub validate_proto_node : (is_sequence : Bool) → ProtoNode → Result Exception (Unit {0})
validate_proto_node is_sequence node =
    if (node.node_id == "") || not (has_id_length node.node_id)
    then err (validation_error "node_id must be a 32-character hex string")
    else if is_empty node.dependencies
    then ok tt
    else if not is_sequence
    then err (validation_error "dependencies must be a list")
    else check_each node.dependencies
