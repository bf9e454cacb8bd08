-- ===== src/Gateway/Policy.antt =====
-- gateway/services/policy.py: role policies and how a request is evaluated against them.
pub mod Defaults
pub mod Decision
use qmtl.Base.{
  String, List, [], ◌∷◌, Bool, true, false, ◌&&◌, Option, none, some, ◌==◌, if◌then◌else◌, any,
  contains, Dict, values,
}

pub data ResourceType : Type 0 where
  strategy node callback event stream : ResourceType

pub data ActionType : Type 0 where
  read create update delete execute : ActionType

-- Both enumerations are texts, and compare by their value.
abbrev pub resource_value : ResourceType → String
resource_value strategy = "strategy"
resource_value node = "node"
resource_value callback = "callback"
resource_value event = "event"
resource_value stream = "stream"

abbrev pub action_value : ActionType → String
action_value read = "read"
action_value create = "create"
action_value update = "update"
action_value delete = "delete"
action_value execute = "execute"

pub record PolicyRule : Type 0 where
  pub resource_type : ResourceType
  pub resource_id : Option String
  pub actions : List ActionType
  pub effect : String
  pub conditions : Dict String

pub record Policy : Type 0 where
  pub policy_id : String
  pub name : String
  pub description : Option String
  pub roles : List String
  pub rules : List PolicyRule

-- The arguments of `evaluate_access`.
pub record Access : Type 0 where
  pub user_roles : List String
  pub resource_type : ResourceType
  pub action : ActionType
  pub resource_id : Option String

-- `rule.resource_id and rule.resource_id != resource_id` is false: an absent or empty id names
-- every resource.
abbrev pub same_id : Option String → Option String → Bool
same_id none id = true
same_id (some r) none = r == ""
same_id (some r) (some id) = if r == "" then true else r == id

-- No `continue` is taken, and the action is one of the rule's.
unfoldable pub rule_matches : Access → PolicyRule → Bool
rule_matches q r =
    (resource_value r.resource_type == resource_value q.resource_type)
    && same_id r.resource_id q.resource_id
    && any (λ a. action_value a == action_value q.action) r.actions

unfoldable pub policy_applies : Access → Policy → Bool
policy_applies q p = any (λ role. contains role p.roles) q.user_roles

-- The inner loop over one policy's rules; `none` is the early `return False` of a denial.
unfoldable pub scan_rules : Access → List PolicyRule → Bool → Option Bool
scan_rules q [] allowed = some allowed
scan_rules q (r ∷ rs) allowed =
    let granted = scan_rules q rs true in
    let skipped = scan_rules q rs allowed in
    if rule_matches q r then (if r.effect == "allow" then granted else none) else skipped

-- The outer loop over the policies.
unfoldable pub scan_policies : Access → List Policy → Bool → Bool
scan_policies q [] allowed = allowed
scan_policies q (p ∷ ps) allowed =
    let skipped = scan_policies q ps allowed in
    if policy_applies q p
    then elim (scan_rules q p.rules allowed) [ none ↦ false | some now ↦ scan_policies q ps now ]
    else skipped

unfoldable pub evaluate_access : Dict Policy → Access → Bool
evaluate_access policies q = scan_policies q (values policies) false
