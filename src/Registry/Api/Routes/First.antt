-- ===== src/Registry/Api/Routes/First.antt =====
-- Every router that keeps the documented order chooses as this function does.
use mathlib.Core.List.{append-nil, append_assoc}
use qmtl.Base.{
  sym, ap, ◌∙◌, String, List, [], ◌∷◌, ◌++◌, true, false, Option, some, none, any, if◌then◌else◌,
  ◌≡◌, refl, arith, Bool-cases, inl, inr, if_true, if_false, any-append,
}
use qmtl.Registry.Api.Routes.{Method, Route, serves, IsRouter}

unfoldable pub first_match : List Route → Method → List String → Option String
first_match [] method path = none
first_match (r ∷ rs) method path =
    let rest = first_match rs method path in if serves r method path then some r.endpoint else rest

module _ (method : Method) (path : List String) where
  first_match-first :
      (before after : List Route) (r : Route)
      → any (λ q. serves q method path) before ≡ false
      → serves r method path ≡ true
      → first_match (before ++ r ∷ after) method path ≡ some r.endpoint
  unfolding first_match
  first_match-first [] after r missed hit = rw hit refl
  first_match-first (q ∷ before) after r missed hit =
      ground (arith, first_match-first before after r)

  first_match-unmatched :
      (rs : List Route)
      → any (λ q. serves q method path) rs ≡ false
      → first_match rs method path ≡ none
  unfolding first_match
  first_match-unmatched [] missed = refl
  first_match-unmatched (r ∷ rs) missed = ground (arith, first_match-unmatched rs)

pub first_match-IsRouter : IsRouter first_match
first_match-IsRouter = record {
  first = λ before after r method path. first_match-first method path before after r;
  unmatched = λ rs method path. first_match-unmatched method path rs;
}

module _ (dispatch : List Route → Method → List String → Option String) (lawful : IsRouter dispatch)
    (method : Method) (path : List String) where
  -- The routes up to here have not matched.
  dispatch_after :
      (before rs : List Route)
      → any (λ q. serves q method path) before ≡ false
      → dispatch (before ++ rs) method path ≡ first_match rs method path
  unfolding first_match
  dispatch_after before [] missed =
      rw (append-nil before) (lawful.unmatched before method path missed)
  dispatch_after before (r ∷ rs) missed = elim (Bool-cases (serves r method path)) [
    | inl hit ↦
        lawful.first before rs r method path missed hit
        ∙ sym (if_true (serves r method path) (some r.endpoint) (first_match rs method path) hit)
    | inr miss ↦
        let later =
          dispatch_after (before ++ r ∷ []) rs
            (ground (arith, any-append (λ q. serves q method path) before (r ∷ []))) in
        ap (λ all. dispatch all method path) (sym (append_assoc before (r ∷ []) rs))
        ∙ later
        ∙ sym (if_false (serves r method path) (some r.endpoint) (first_match rs method path) miss)
  ]

  pub dispatch-first_match :
      (rs : List Route) → dispatch rs method path ≡ first_match rs method path
  dispatch-first_match rs = dispatch_after [] rs refl
