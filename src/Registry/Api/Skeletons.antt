-- ===== src/Registry/Api/Skeletons.antt =====
-- dag_manager/registry/api.py: the endpoints that answer without a service.
use qmtl.Base.{String, List, [], Option, none}
use qmtl.Registry.Api.Json.{Json, Fields, get}

pub data Answer : Type 0 where
  healthy : (version : String) → Answer
  service_ok : (service : String) → Answer
  node_updated : (node_id : String) (updated_fields : Fields) → Answer
  strategy_updated : (strategy_version_id : String) (updated_fields : Fields) → Answer
  template_id : Option Json → Answer
  template : (template_id : String) (template : Option Json) → Answer
  templates : List Json → Answer
  permissions : List Json → Answer
  success : Answer

abbrev pub health_check : Answer
health_check = healthy "0.1.0"

abbrev pub health : Answer
health = service_ok "registry"

abbrev pub update_node_partial : String → Fields → Answer
update_node_partial = node_updated

abbrev pub update_strategy_partial : String → Fields → Answer
update_strategy_partial = strategy_updated

abbrev pub create_node_template : Fields → Answer
create_node_template given = template_id (get "template_id" given)

abbrev pub create_strategy_template : Fields → Answer
create_strategy_template given = template_id (get "template_id" given)

abbrev pub create_dag_template : Fields → Answer
create_dag_template given = template_id (get "template_id" given)

abbrev pub get_template : String → Answer
get_template id = template id none

abbrev pub list_templates : Option String → Answer
list_templates template_type = templates []

abbrev pub grant_template_permission : String → Fields → Answer
grant_template_permission id permission = success

abbrev pub list_template_permissions : String → Answer
list_template_permissions id = permissions []

abbrev pub revoke_template_permission : (template_id user_id : String) → Answer
revoke_template_permission id user = success
