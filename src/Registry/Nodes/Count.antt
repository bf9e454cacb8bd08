-- ===== src/Registry/Nodes/Count.antt =====
-- Reference counts of nodes.
use qmtl.Base.{
  ◌+◌, String, [], ◌∷◌, not, ◌&&◌, ◌≡◌, refl, ◌==◌, if◌then◌else◌, has_key, contains, Nodup, arith,
  eq_iff, Bool-cases, inl, inr, length, length-append,
}
use qmtl.Registry.Links.{at}
use qmtl.Registry.Nodes.{
  NodeService, add_contains_relationship, get_node_ref_count, get_node_ref_strategies,
}
use qmtl.Registry.Links.Laws.{at-link}
use qmtl.Registry.Nodes.Linked.{IsLinked, linked}

-- The count of a node's references grows by one where a new link is added to a node that exists,
-- and is as before otherwise.
pub get_node_ref_count-add_contains_relationship :
    (s : NodeService) (v n m : String)
    → get_node_ref_count m (add_contains_relationship v n s) ≡ (
        if has_key n s.nodes && ((n == m) && not (linked s n v))
        then get_node_ref_count m s + 1
        else get_node_ref_count m s)
unfolding get_node_ref_count add_contains_relationship
get_node_ref_count-add_contains_relationship s v n m = ground (
  arith,
  at-link n v m s.node_strategy_map,
  length-append (at n s.node_strategy_map) (v ∷ []),
  eq_iff n m,
)

-- The references of a node are the strategy versions that contain it, each named once, and their
-- number is the count.
pub get_node_ref_strategies_lem :
    (s : NodeService) (n : String)
    → IsLinked s
    → ((v : String) → contains v (get_node_ref_strategies n s) ≡ linked s n v)
      × Nodup (get_node_ref_strategies n s)
      × (get_node_ref_count n s ≡ length (get_node_ref_strategies n s))
unfolding get_node_ref_strategies get_node_ref_count
get_node_ref_strategies_lem s n l = elim (Bool-cases (has_key n s.node_strategy_map)) [
  | inl here ↦ rw here (λ v. refl, l.refs_nodup n, refl)
  | inr gone ↦ rw gone (λ v. ground arith, tt, refl)
]
