-- ===== src/Registry/Api/Create.antt =====
-- dag_manager/registry/api.py, `create_node`. `parse` stands for protobuf's `ParseDict`, which builds a node
-- from a dict or raises.
use qmtl.Base.{String, Option, none, some, ◌==◌, ◌||◌, if◌then◌else◌, Result, ok, err}
use qmtl.Registry.Nodes.{ProtoNode}
use qmtl.Registry.Services.{
  Exception, http_exception, validation_error, registry_service_error, other, Op, ◌>>=◌, pure,
  NodeManagementService,
}
use qmtl.Registry.Api.Json.{
  Json, text, array, object, Fields, empty, is_truthy, get, set, rename_keys,
}
use qmtl.Registry.Api.Names.{camel_to_snake}
use qmtl.Registry.Api.{Reply, node_id}

abbrev pub lift : {S A : Type 0} → Result Exception A → Op S A
lift r = λ s. (s, r)

-- `value.items()`: other values than dicts have no such attribute.
abbrev pub items : Json → Result Exception Fields
items (object fs) = ok fs
items _ = err (other "no attribute 'items'")

-- `node_data.get("node", {}).items()`
abbrev pub entry_items : Option Json → Result Exception Fields
entry_items none = ok empty
entry_items (some v) = items v

-- `enum_map[val]`, where `val in enum_map`
abbrev pub enum_label : String → Option String
enum_label val =
    if (val == "1m") || (val == "MINUTE")
    then some "MINUTE"
    else if (val == "1h") || (val == "HOUR")
    then some "HOUR"
    else if (val == "1d") || (val == "DAY")
    then some "DAY"
    else none

-- A list or a dict cannot be looked up in a dict.
abbrev with_label : Option String → Fields → Fields
with_label none settings = settings
with_label (some label) settings = set "interval" (text label) settings

abbrev relabel_value : Json → Fields → Result Exception Fields
relabel_value (text val) settings = ok (with_label (enum_label val) settings)
relabel_value (array vs) settings = err (other "unhashable type: 'list'")
relabel_value (object fs) settings = err (other "unhashable type: 'dict'")
relabel_value _ settings = ok settings

abbrev pub relabel : Option Json → Fields → Result Exception Fields
relabel none settings = ok settings
relabel (some val) settings = if is_truthy val then relabel_value val settings else ok settings

abbrev store_settings : Fields → Result Exception Fields → Result Exception Fields
store_settings node (ok settings) = ok (set "interval_settings" (object settings) node)
store_settings node (err e) = err e

abbrev rename_settings : Fields → Result Exception Fields → Result Exception Fields
rename_settings node (ok settings) =
    let renamed = rename_keys camel_to_snake settings in
    store_settings node (relabel (get "interval" renamed) renamed)
rename_settings node (err e) = err e

abbrev pub normalize_settings : Option Json → Fields → Result Exception Fields
normalize_settings none node = ok node
normalize_settings (some v) node = if is_truthy v then rename_settings node (items v) else ok node

abbrev normalize_items : Result Exception Fields → Result Exception Fields
normalize_items (ok fs) =
    let node = rename_keys camel_to_snake fs in
    normalize_settings (get "interval_settings" node) node
normalize_items (err e) = err e

-- The dict that is parsed: its keys, and those of its interval settings, in snake case
unfoldable pub normalize : Option Json → Result Exception Fields
normalize given = normalize_items (entry_items given)

-- The `except` clauses
abbrev pub as_http : Exception → Exception
as_http (validation_error t) = http_exception 422 t
as_http (registry_service_error t) = http_exception 500 t
as_http (http_exception code t) = http_exception code t
as_http e = http_exception 500 "노드 등록 처리 중 내부 서버 오류가 발생했습니다"

abbrev pub registered : {S A : Type 0} → S × Result Exception A → S × Result Exception A
registered (s, ok a) = (s, ok a)
registered (s, err e) = (s, err (as_http e))

module _ {S : Type 0} (parse : Fields → Result Exception ProtoNode)
    (svc : NodeManagementService S) where
  abbrev pub register : Option Json → Op S Reply
  register given = do
    fields ← lift (normalize given)
    node ← lift (parse fields)
    valid ← svc.validate_node node
    id ← svc.create_node node
    pure (node_id id)

  unfoldable pub create_node : Option Json → Op S Reply
  create_node given = λ s. registered (register given s)
