-- ===== src/Registry/Client/Status.antt =====
-- What the client makes of a response.
use qmtl.Base.{String, true, false, none, Result, ok, err, ◌≡◌, ◌≢◌, arith}
use qmtl.Registry.Api.Json.{Json}
use qmtl.Registry.Client.{
  error_text, Response, Failure, client_error, Transport, Outcome, handle_response, delete_node,
  add_contains_relationship, remove_contains_relationship, get_node_ref_count,
  get_node_ref_strategies, get_node, get_strategy, get_strategy_nodes, register_node,
}

calls : Unit {0}
unfolding handle_response delete_node add_contains_relationship remove_contains_relationship
    get_node_ref_count get_node_ref_strategies get_node get_strategy get_strategy_nodes
    register_node
calls = tt

-- A server that gives one response to everything
abbrev pub always : {S : Type 0} → Response → Transport S
always r method path body s = (s, ok r)

abbrev pub Raises : {S A : Type 0} → Response → Outcome S A → Type 0
Raises r o = o.1 ≡ err (client_error (error_text r))

-- An answer whose status is none of 200, 201 and 404 is an error for the calls that delete a node, count or
-- list its references or list the nodes of a strategy. The calls that fetch a node or a strategy return
-- nothing, as for one that does not exist; adding a link returns false, and removing one returns true.
pub other_status :
    {S A : Type 0} (r : Response) (validate : Json → Result Failure A) (v n : String) (s : S)
    → r.status_code ≢ 200
    → r.status_code ≢ 201
    → r.status_code ≢ 404
    → (Raises r (delete_node (always r) n s)
        × Raises r (get_node_ref_count (always r) n s)
        × Raises r (get_node_ref_strategies (always r) n s)
        × Raises r (get_strategy_nodes (always r) validate v s))
      × ((get_node (always r) validate n s).1 ≡ ok none)
      × ((get_strategy (always r) validate v s).1 ≡ ok none)
      × ((add_contains_relationship (always r) v n s).1 ≡ ok false)
      × ((remove_contains_relationship (always r) v n s).1 ≡ ok true)
unfolding calls
other_status r validate v n s not_ok not_created not_missing = (
  (ground arith, ground arith, ground arith, ground arith),
  ground arith,
  ground arith,
  ground arith,
  ground arith,
)
