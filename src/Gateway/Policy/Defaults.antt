-- ===== src/Gateway/Policy/Defaults.antt =====
-- The default policies of `_load_default_policies`, and the access that each role has by them.
use qmtl.Base.{
  String, List, [], ◌∷◌, Bool, true, false, ◌&&◌, ◌||◌, Option, none, some, ◌≡◌, refl, any,
  contains, Dict, arith, eq_iff,
}
use qmtl.Gateway.Policy.{
  ResourceType, strategy, node, callback, event, stream, ActionType, read, create, update, delete,
  execute, PolicyRule, Policy, Access, rule_matches, policy_applies, scan_rules, scan_policies,
  evaluate_access,
}

abbrev rule : ResourceType → List ActionType → PolicyRule
rule type actions = record {
  resource_type = type;
  resource_id = none;
  actions = actions;
  effect = "allow";
  conditions = [];
}

abbrev pub read_only_policy : Policy
read_only_policy = record {
  policy_id = "read-only";
  name = "Read Only Policy";
  description = some "읽기 전용 접근 권한을 제공하는 정책";
  roles = "user" ∷ [];
  rules = rule strategy (read ∷ []) ∷ rule node (read ∷ []) ∷ rule event (read ∷ []) ∷ [];
}

abbrev pub admin_policy : Policy
admin_policy = record {
  policy_id = "admin";
  name = "Admin Policy";
  description = some "모든 리소스에 대한 완전한 접근 권한을 제공하는 정책";
  roles = "admin" ∷ [];
  rules =
      rule strategy (read ∷ create ∷ update ∷ delete ∷ execute ∷ [])
      ∷ rule node (read ∷ create ∷ update ∷ delete ∷ [])
      ∷ rule callback (read ∷ create ∷ update ∷ delete ∷ [])
      ∷ rule event (read ∷ create ∷ [])
      ∷ rule stream (read ∷ create ∷ update ∷ delete ∷ [])
      ∷ [];
}

abbrev pub service_policy : Policy
service_policy = record {
  policy_id = "service";
  name = "Service Policy";
  description = some "내부 서비스 간 통신을 위한 정책";
  roles = "service" ∷ [];
  rules =
      rule strategy (read ∷ create ∷ update ∷ execute ∷ [])
      ∷ rule node (read ∷ create ∷ update ∷ [])
      ∷ rule callback (read ∷ create ∷ [])
      ∷ rule event (read ∷ create ∷ [])
      ∷ [];
}

unfoldable pub default_policies : Dict Policy
default_policies =
    ("read-only", read_only_policy) ∷ ("admin", admin_policy) ∷ ("service", service_policy) ∷ []

-- What each default role may do.
abbrev pub user_may : ResourceType → ActionType → Bool
user_may strategy read = true
user_may node read = true
user_may event read = true
user_may _ _ = false

abbrev pub admin_may : ResourceType → ActionType → Bool
admin_may strategy _ = true
admin_may _ execute = false
admin_may event update = false
admin_may event delete = false
admin_may _ _ = true

abbrev pub service_may : ResourceType → ActionType → Bool
service_may strategy delete = false
service_may strategy _ = true
service_may node read = true
service_may node create = true
service_may node update = true
service_may callback read = true
service_may callback create = true
service_may event read = true
service_may event create = true
service_may _ _ = false

any-contains-singleton :
    (role : String) (roles : List String)
    → any (λ r. contains r (role ∷ [])) roles ≡ contains role roles
any-contains-singleton role [] = refl
any-contains-singleton role (r ∷ roles) =
    ground (arith, any-contains-singleton role roles, eq_iff role r, eq_iff r role)

abbrev pub access : List String → ResourceType → ActionType → Option String → Access
access roles type action id = record {
  user_roles = roles;
  resource_type = type;
  action = action;
  resource_id = id;
}

module _ (roles : List String) where
  abbrev shared : String → Bool
  shared role = any (λ r. contains r (role ∷ [])) roles

  -- The verdict in terms of the three role tests, one policy after the other.
  verdict :
      (type : ResourceType) (action : ActionType) (id : Option String)
      → evaluate_access default_policies (access roles type action id) ≡ (
          shared "user" && user_may type action
          || shared "admin" && admin_may type action
          || shared "service" && service_may type action)
  unfolding default_policies evaluate_access scan_policies scan_rules rule_matches policy_applies
  verdict strategy read id = ground arith
  verdict strategy _ id = ground arith
  verdict node read id = ground arith
  verdict node _ id = ground arith
  verdict callback read id = ground arith
  verdict callback _ id = ground arith
  verdict event read id = ground arith
  verdict event _ id = ground arith
  verdict stream read id = ground arith
  verdict stream _ id = ground arith

-- Under the default policies a request is allowed exactly by the access table of one of the
-- user's roles, whatever the resource's id; a user with none of the three roles has no access.
pub evaluate_access-default_policies :
    (roles : List String) (type : ResourceType) (action : ActionType) (id : Option String)
    → evaluate_access default_policies (access roles type action id) ≡ (
        contains "user" roles && user_may type action
        || contains "admin" roles && admin_may type action
        || contains "service" roles && service_may type action)
evaluate_access-default_policies roles type action id = cc (
  verdict roles type action id,
  any-contains-singleton "user" roles,
  any-contains-singleton "admin" roles,
  any-contains-singleton "service" roles,
)
