-- ===== src/Registry/Api/Routes/Shadowed.antt =====
-- Endpoints that no request reaches.
use qmtl.Base.{
  String, List, [], ◌∷◌, Bool, true, false, not, ◌&&◌, ◌||◌, Option, some, any, ◌≡◌, ◌≢◌, refl,
  arith, eq_iff, ◌==◌,
}
use qmtl.Registry.Api.Routes.{
  Method, same_method, Segment, lit, param, Route, path_matches, serves, IsRouter, routes,
}
use qmtl.Registry.Api.Routes.First.{first_match, dispatch-first_match}

-- Every path that fits the second pattern fits the first.
abbrev segment_covers : Segment → Segment → Bool
segment_covers param param = true
segment_covers param (lit t) = not (t == "")
segment_covers (lit t) (lit u) = t == u
segment_covers (lit t) param = false

abbrev path_covers : List Segment → List Segment → Bool
path_covers [] [] = true
path_covers (g ∷ gs) (h ∷ hs) = segment_covers g h && path_covers gs hs
path_covers [] (h ∷ hs) = false
path_covers (g ∷ gs) [] = false

abbrev covers : Route → Route → Bool
covers q r = same_method q.method r.method && path_covers q.path r.path

-- Each route of the endpoint comes after one that takes all of its requests.
unfoldable pub is_shadowed : String → List Route → List Route → Bool
is_shadowed endpoint before [] = true
is_shadowed endpoint before (r ∷ rs) =
    let rest = is_shadowed endpoint (r ∷ before) rs in
    (not (r.endpoint == endpoint) || any (λ q. covers q r) before) && rest

path_covers_lem :
    (gs hs : List Segment) (path : List String)
    → path_covers gs hs ≡ true
    → path_matches hs path ≡ true
    → path_matches gs path ≡ true
path_covers_lem [] [] path c m = m
path_covers_lem (g ∷ gs) (h ∷ hs) [] c m = absurd (ground arith)
path_covers_lem (param ∷ gs) (param ∷ hs) (p ∷ ps) c m = ground (arith, path_covers_lem gs hs ps)
path_covers_lem (param ∷ gs) (lit t ∷ hs) (p ∷ ps) c m =
    ground (arith, path_covers_lem gs hs ps, eq_iff t p)
path_covers_lem (lit t ∷ gs) (lit u ∷ hs) (p ∷ ps) c m =
    ground (arith, path_covers_lem gs hs ps, eq_iff t u)
path_covers_lem (lit t ∷ gs) (param ∷ hs) (p ∷ ps) c m = absurd (ground arith)
path_covers_lem [] (h ∷ hs) path c m = cc
path_covers_lem (g ∷ gs) [] path c m = cc

same_method_lem :
    (a b c : Method) → same_method a b ≡ true → same_method b c ≡ true → same_method a c ≡ true
same_method_lem a b c h k = ground arith

covers_lem :
    (q r : Route) (method : Method) (path : List String)
    → covers q r ≡ true
    → serves r method path ≡ true
    → serves q method path ≡ true
covers_lem q r method path c s =
    ground (arith, same_method_lem q.method r.method method, path_covers_lem q.path r.path path)

leaf_nodes-shadowed : is_shadowed "get_leaf_nodes" [] routes ≡ true
unfolding is_shadowed routes
leaf_nodes-shadowed = refl

by_tags-shadowed : is_shadowed "get_nodes_by_tags" [] routes ≡ true
unfolding is_shadowed routes
by_tags-shadowed = refl

module _ (method : Method) (path : List String) where
  any-covers :
      (before : List Route) (r : Route)
      → any (λ q. covers q r) before ≡ true
      → serves r method path ≡ true
      → any (λ q. serves q method path) before ≡ true
  any-covers [] r c s = cc
  any-covers (q ∷ before) r c s = ground (arith, any-covers before r, covers_lem q r method path)

  first_match-ne :
      (endpoint : String) (before rs : List Route)
      → is_shadowed endpoint before rs ≡ true
      → any (λ q. serves q method path) before ≡ false
      → first_match rs method path ≢ some endpoint
  unfolding first_match is_shadowed
  first_match-ne endpoint before [] shadowed missed = λ e. cc
  first_match-ne endpoint before (r ∷ rs) shadowed missed = λ e. ground (
    arith,
    any-covers before r,
    first_match-ne endpoint (r ∷ before) rs,
    eq_iff r.endpoint endpoint,
  )

-- Whatever router keeps the documented order, no request is ever served by `get_leaf_nodes` or by
-- `get_nodes_by_tags`: the routes for one node come first and take their paths.
pub dispatch-ne :
    (dispatch : List Route → Method → List String → Option String)
    → IsRouter dispatch
    → (method : Method) (path : List String)
    → (dispatch routes method path ≢ some "get_leaf_nodes")
      × (dispatch routes method path ≢ some "get_nodes_by_tags")
dispatch-ne dispatch lawful method path =
    let same = dispatch-first_match dispatch lawful method path routes in
    rw same (
      first_match-ne method path "get_leaf_nodes" [] routes leaf_nodes-shadowed refl,
      first_match-ne method path "get_nodes_by_tags" [] routes by_tags-shadowed refl,
    )
