-- ===== src/Dag/Sort.antt =====
-- dag_manager/strategy/dag_service.py: `get_topological_order`, Kahn's algorithm, and
-- `get_topological_sort_result`.
pub mod Ends
pub mod Remaining
pub mod Loop
pub mod Degrees
pub mod Order
use qmtl.Base.{
  ℕ, zero, suc, String, List, [], ◌∷◌, ◌++◌, Bool, true, false, Option, none, some, if◌then◌else◌,
  Dict, lookup, insert, keys, length, nat_eq, Result, ok, err, ◌>>=◌,
}
use qmtl.Core.Node.{DataNode}
use qmtl.Dag.{DagService, at}
use qmtl.Dag.Verify.{DagError, incomplete, key_error, out_of_fuel, touch, verify_acyclic}

-- A count that Python lets fall below 0: `negsuc n` is -(n + 1).
pub data ℤ : Type 0 where
  pos negsuc : ℕ → ℤ

abbrev pub increment : ℤ → ℤ
increment (pos n) = pos (suc n)
increment (negsuc zero) = pos zero
increment (negsuc (suc n)) = negsuc n

abbrev pub decrement : ℤ → ℤ
decrement (pos zero) = negsuc zero
decrement (pos (suc n)) = pos n
decrement (negsuc n) = negsuc (suc n)

abbrev pub is_zero : ℤ → Bool
is_zero (pos zero) = true
is_zero (pos (suc n)) = false
is_zero (negsuc n) = false

-- `{node_id: 0 for node_id in self.nodes}`
abbrev pub zero_degrees : List String → Dict ℤ → Dict ℤ
zero_degrees [] d = d
zero_degrees (n ∷ ns) d = zero_degrees ns (insert n (pos zero) d)

-- `in_degree[node_id] += 1` for each upstream listed.
unfoldable pub count_upstreams : String → List String → Dict ℤ → Result DagError (Dict ℤ)
count_upstreams node_id [] d = ok d
count_upstreams node_id (dep ∷ deps) d = elim (lookup node_id d) [
  | none ↦ err key_error
  | some n ↦ count_upstreams node_id deps (insert node_id (increment n) d)
]

-- The loop over the nodes; it reads a `defaultdict` and so can add keys to it.
unfoldable pub count_degrees :
    List String
    → (upstreams : Dict (List String)) → Dict ℤ
    → Result DagError (Dict (List String) × Dict ℤ)
count_degrees [] up d = ok (up, d)
count_degrees (n ∷ ns) up d = count_upstreams n (at n up) d >>= count_degrees ns (touch n up)

-- The ids whose degree is 0.
abbrev pub zero_ids : Dict ℤ → List String
zero_ids [] = []
zero_ids ((k, n) ∷ d) = if is_zero n then k ∷ zero_ids d else zero_ids d

-- The local state of the main loop.
pub record Kahn : Type 0 where
  pub in_degree : Dict ℤ
  pub queue : List String
  pub order : List String
  pub downstreams : Dict (List String)

-- One round of `for dependent in self.adjacency_list[current]`.
abbrev pub lower : String → ℤ → Kahn → Kahn
lower k n s =
    if is_zero n
    then record s { in_degree = insert k n s.in_degree; queue = s.queue ++ k ∷ [] }
    else record s { in_degree = insert k n s.in_degree }

unfoldable pub lower_all : List String → Kahn → Result DagError Kahn
lower_all [] s = ok s
lower_all (k ∷ ks) s = elim (lookup k s.in_degree) [
  | none ↦ err key_error
  | some n ↦ lower_all ks (lower k (decrement n) s)
]

-- `queue.popleft()`, the append to the order, and the read of `adjacency_list[current]`.
abbrev pub take_next : String → List String → Kahn → Kahn
take_next current rest s = record s {
  queue = rest;
  order = s.order ++ current ∷ [];
  downstreams = touch current s.downstreams;
}

unfoldable pub drain : ℕ → Kahn → Result DagError Kahn
drain zero s = err out_of_fuel
drain (suc fuel) s = elim s.queue [
  | [] ↦ ok s
  | current ∷ rest ↦ lower_all (at current s.downstreams) (take_next current rest s) >>= drain fuel
]

abbrev pub begin : DagService → Dict ℤ → Kahn
begin g d = record { in_degree = d; queue = zero_ids d; order = []; downstreams = g.adjacency_list }

abbrev pub check_complete : DagService → Kahn → Result DagError (List String × DagService)
check_complete g s =
    if nat_eq (length s.order) (length (keys g.nodes))
    then ok (s.order, record g { adjacency_list = s.downstreams })
    else err incomplete

unfoldable pub sort_verified : DagService → Result DagError (List String × DagService)
sort_verified g =
    count_degrees (keys g.nodes) g.reverse_adjacency_list (zero_degrees (keys g.nodes) []) >>= λ p.
    drain (suc (length p.1)) (begin g p.1)
    >>= check_complete (record g { reverse_adjacency_list = p.0 })

unfoldable pub get_topological_order : DagService → Result DagError (List String × DagService)
get_topological_order g =
    if g.verified then sort_verified g else (verify_acyclic g >>= sort_verified)

-- `{node_id: self.nodes[node_id] for node_id in order}`
unfoldable pub stored_map :
    Dict DataNode → List String → Dict DataNode → Result DagError (Dict DataNode)
stored_map nodes [] acc = ok acc
stored_map nodes (i ∷ is) acc = elim (lookup i nodes) [
  | none ↦ err key_error
  | some n ↦ stored_map nodes is (insert i n acc)
]

unfoldable pub get_topological_sort_result :
    DagService → Result DagError ((List String × Dict DataNode) × DagService)
get_topological_sort_result g = get_topological_order g >>= λ p.
    stored_map p.1.nodes p.0 [] >>= λ node_map. ok ((p.0, node_map), p.1)
