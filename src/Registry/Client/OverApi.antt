-- ===== src/Registry/Client/OverApi.antt =====
-- The client on a server that is the API in its test mode: what a caller sees of the node service through both.
-- `to_dict` stands for protobuf's `MessageToDict`; `elsewhere` answers where the client sends a body.
use qmtl.Base.{
  ◌&&◌, ℕ, String, List, [], ◌∷◌, Bool, true, false, Option, none, some, Result, ok, err, ◌≡◌, refl,
  ap, ◌∙◌, arith, ◌==◌, if◌then◌else◌, inl, inr, Option-cases, has_key, lookup,
}
use qmtl.Registry.Nodes.{ProtoNode, NodeService}
use qmtl.Registry.Nodes
use qmtl.Registry.Services.{Exception}
use qmtl.Registry.Api.Json.{
  text, number, boolean, array, object, Items, end, item, Fields, empty, field, get,
}
use qmtl.Registry.Api.Routes.{callback_routes, public_routes, internal_routes, app_routes, routes}
use qmtl.Registry.Api.Routes.First.{first_match}
use qmtl.Registry.Api
use qmtl.Registry.Api.{
  Reply, respond, node_id, node, nodes, success, ref_count, strategy_version_ids,
}
use qmtl.Registry.Api.Relations
use qmtl.Registry.Api.Calls.{
  Call, test_services, serve, get_node, delete_node, get_node_reference_count,
  get_node_reference_strategies, add_node_to_strategy, remove_node_from_strategy,
}
use qmtl.Registry.Api.Paths.{
  joined, split, parts, is_word, is_plain, split-word, split-slash, parts-id, parts-id_below,
}
use qmtl.Registry.Client
use qmtl.Registry.Client.{
  nodes_path, strategies_path, node_path, below, below_id, Response, Body, json, plain, Transport,
  texts_of, handle_response,
}

abbrev texts : List String → Items
texts [] = end
texts (t ∷ ts) = item (text t) (texts ts)

abbrev encode_all : (ProtoNode → Fields) → List ProtoNode → Items
encode_all to_dict [] = end
encode_all to_dict (n ∷ ns) = item (object (to_dict n)) (encode_all to_dict ns)

-- The replies that the client asks for
abbrev encode : (ProtoNode → Fields) → Reply → Fields
encode to_dict (node n) = field "node" (object (to_dict n)) empty
encode to_dict (nodes ns) = field "nodes" (array (encode_all to_dict ns)) empty
encode to_dict success = field "success" (boolean true) empty
encode to_dict (ref_count k) = field "ref_count" (number k) empty
encode to_dict (strategy_version_ids vs) = field "strategy_version_ids" (array (texts vs)) empty
encode to_dict _ = empty

abbrev failed : Option (ℕ × String) → Response
failed none = record { status_code = 500; body = plain "Internal Server Error" }
failed (some (code, detail)) = record {
  status_code = code;
  body = json (field "detail" (text detail) empty);
}

abbrev response_of : (ProtoNode → Fields) → Result Exception Reply → Response
response_of to_dict (ok reply) = record { status_code = 200; body = json (encode to_dict reply) }
response_of to_dict (err e) = failed (respond e)

abbrev last_part : List String → String
last_part (_ ∷ n ∷ []) = n
last_part _ = ""

-- The arguments of an endpoint's function, from the parts of the path after the first three
abbrev call_of : String → String → List String → Option Call
call_of endpoint x rest =
    if endpoint == "get_node"
    then some (get_node x)
    else if endpoint == "delete_node"
    then some (delete_node x)
    else if endpoint == "get_node_reference_count"
    then some (get_node_reference_count x)
    else if endpoint == "get_node_reference_strategies"
    then some (get_node_reference_strategies x)
    else if endpoint == "add_node_to_strategy"
    then some (add_node_to_strategy x (last_part rest))
    else if endpoint == "remove_node_from_strategy"
    then some (remove_node_from_strategy x (last_part rest))
    else none

abbrev routed : Option String → List String → Option Call
routed (some endpoint) (a ∷ b ∷ c ∷ x ∷ rest) = call_of endpoint x rest
routed _ _ = none

module _ (parse : Fields → Result Exception ProtoNode) (is_sequence : Bool)
    (to_dict : ProtoNode → Fields) (elsewhere : Transport NodeService) where
  abbrev sent : NodeService × Result Exception Reply → NodeService × Result String Response
  sent (s, r) = (s, ok (response_of to_dict r))

  abbrev answer : Option Call → Transport NodeService
  answer none method url body s = elsewhere method url body s
  answer (some call) method url body s = sent (serve parse (test_services is_sequence) call s)

  unfoldable pub over_api : Transport NodeService
  over_api method url body s =
      answer (routed (first_match routes method (parts url)) (parts url)) method url body s

  texts_of-texts : (ts : List String) → texts_of (texts ts) ≡ ts
  texts_of-texts [] = refl
  texts_of-texts (t ∷ ts) = ground (arith, texts_of-texts ts)

  client : Unit {0}
  unfolding over_api first_match routes callback_routes public_routes internal_routes app_routes
      serve Client.delete_node Client.add_contains_relationship Client.remove_contains_relationship
      Client.get_node_ref_count Client.get_node_ref_strategies handle_response respond get
      Api.delete_node Api.get_node Relations.add_node_to_strategy
      Relations.remove_node_from_strategy Relations.get_node_reference_count
      Relations.get_node_reference_strategies Nodes.get_node
  client = tt

  -- A plain id is a part of the path that a parameter takes.
  is_part : (id : String) → is_plain id ≡ true → (id == "") ≡ false
  is_part id single = ground (arith, single)

  split-plain : (id : String) → is_plain id ≡ true → split id ≡ (id, [])
  split-plain id single = split-word id (ground (arith, single))

  to_node :
      (n : String) → is_plain n ≡ true → parts (node_path n) ≡ "v1" ∷ "registry" ∷ "nodes" ∷ n ∷ []
  unfolding parts split
  to_node n single = parts-id "/v1/registry/nodes" n single

  to_references :
      (n what : String)
      → is_plain n ≡ true
      → is_plain what ≡ true
      → parts (below_id nodes_path n what) ≡ "v1" ∷ "registry" ∷ "nodes" ∷ n ∷ what ∷ []
  unfolding parts split
  to_references n what single word =
      parts-id_below "/v1/registry/nodes" n what single
      ∙ ap (λ (x : String × List String). "v1" ∷ "registry" ∷ "nodes" ∷ n ∷ x.0 ∷ x.1)
          (split-plain what word)

  to_link :
      (v n : String)
      → is_plain v ≡ true
      → is_plain n ≡ true
      → parts (below_id strategies_path v (below "nodes" n))
        ≡ "v1" ∷ "registry" ∷ "strategies" ∷ v ∷ "nodes" ∷ n ∷ []
  unfolding parts split
  to_link v n pv pn =
      parts-id_below "/v1/registry/strategies" v (below "nodes" n) pv
      ∙ ap (λ (x : String × List String). "v1" ∷ "registry" ∷ "strategies" ∷ v ∷ x.0 ∷ x.1)
          (split-slash "nodes" n ∙ ap (joined ("nodes", [])) (split-plain n pn))

  and_false : (b : Bool) → (b && false) ≡ false
  and_false b = ground arith

  -- Where the ids consist of letters, digits, `-` and `_`, through the client and the API a node is deleted exactly
  -- as the service deletes it, and the answer says whether it was stored; a link is never added; removing a link
  -- removes it and answers true, whether there was one or not; references are counted and listed as the service
  -- does for a node that is stored, and there are none for another.
  pub over_api_lem :
      (v n : String) (s : NodeService)
      → is_plain v ≡ true
      → is_plain n ≡ true
      → (Client.delete_node over_api n s ≡ ((Nodes.delete_node n s).0, ok (has_key n s.nodes)))
        × (Client.add_contains_relationship over_api v n s ≡ (s, ok false))
        × (Client.remove_contains_relationship over_api v n s
            ≡ (Nodes.remove_contains_relationship v n s, ok true))
        × (Client.get_node_ref_count over_api n s
            ≡ (s, ok (if has_key n s.nodes then Nodes.get_node_ref_count n s else 0)))
        × (Client.get_node_ref_strategies over_api n s
            ≡ (s, ok (if has_key n s.nodes then Nodes.get_node_ref_strategies n s else [])))
  unfolding client
  over_api_lem v n s pv pn =
      let node = to_node n pn in
      let link = to_link v n pv pn in
      let count = to_references n "ref-count" pn (unfold is_word in refl) in
      let listing = to_references n "ref-strategies" pn (unfold is_word in refl) in
      let n_part = is_part n pn in
      let v_part = is_part v pv in
      let leaf = and_false ("leaf-nodes" == n) in
      let tags = and_false ("by-tags" == n) in
      elim (Option-cases (lookup n s.nodes)) [
        | inl absent ↦ (
          unfold Nodes.delete_node in rw (node, n_part, absent) refl,
          rw (link, v_part, n_part, absent) refl,
          rw (link, v_part, n_part) refl,
          rw (count, n_part, leaf, tags, absent) refl,
          rw (listing, n_part, leaf, tags, absent) refl,
        )
        | inr (stored, found) ↦ (
          unfold Nodes.delete_node in rw (node, n_part, found) refl,
          rw (link, v_part, n_part, found) refl,
          rw (link, v_part, n_part) refl,
          rw (count, n_part, leaf, tags, found) refl,
          rw (listing, n_part, leaf, tags, found)
              (ground (arith, texts_of-texts (Nodes.get_node_ref_strategies n s))),
        )
      ]
