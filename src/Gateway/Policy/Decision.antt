-- ===== src/Gateway/Policy/Decision.antt =====
-- What the nested loops of `evaluate_access` decide, without loops or early returns.
use qmtl.Base.{
  List, [], ◌∷◌, Bool, true, false, not, ◌&&◌, ◌||◌, none, some, ◌≡◌, refl, ◌==◌, if◌then◌else◌,
  any, Dict, values, arith,
}
use qmtl.Gateway.Policy.{
  PolicyRule, Policy, Access, rule_matches, policy_applies, scan_rules, scan_policies,
  evaluate_access,
}

abbrev pub grants : Access → PolicyRule → Bool
grants q r = rule_matches q r && (r.effect == "allow")

abbrev pub denies : Access → PolicyRule → Bool
denies q r = rule_matches q r && not (r.effect == "allow")

-- Some rule of some policy that applies to the roles.
abbrev pub some_rule : (PolicyRule → Bool) → Access → List Policy → Bool
some_rule test q ps = any (λ p. policy_applies q p && any test p.rules) ps

scan_rules_lem :
    (q : Access) (rs : List PolicyRule) (allowed : Bool)
    → scan_rules q rs allowed
      ≡ (if any (denies q) rs then none else some (allowed || any (grants q) rs))
unfolding scan_rules
scan_rules_lem q [] true = refl
scan_rules_lem q [] false = refl
scan_rules_lem q (r ∷ rs) allowed =
    ground (arith, scan_rules_lem q rs true, scan_rules_lem q rs allowed)

scan_policies_lem :
    (q : Access) (ps : List Policy) (allowed : Bool)
    → scan_policies q ps allowed
      ≡ ((allowed || some_rule (grants q) q ps) && not (some_rule (denies q) q ps))
unfolding scan_policies
scan_policies_lem q [] true = refl
scan_policies_lem q [] false = refl
scan_policies_lem q (p ∷ ps) allowed = ground (
  arith,
  scan_rules_lem q p.rules allowed,
  scan_policies_lem q ps true,
  scan_policies_lem q ps allowed,
)

-- `evaluate_access` allows a request exactly when, among the policies that share a role with the
-- user, some matching rule allows it and no matching rule has another effect: the order of
-- policies and rules plays no part, and a denial overrides every grant.
pub evaluate_access-eq-granted_not_denied :
    (policies : Dict Policy) (q : Access)
    → evaluate_access policies q
      ≡ (some_rule (grants q) q (values policies) && not (some_rule (denies q) q (values policies)))
unfolding evaluate_access
evaluate_access-eq-granted_not_denied policies q = scan_policies_lem q (values policies) false
