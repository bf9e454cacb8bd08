-- ===== src/Registry/Nodes/Linked.antt =====
-- The two maps between nodes and strategy versions describe one relation.
use qmtl.Base.{
  String, [], ◌∷◌, ◌++◌, Bool, true, false, not, ◌&&◌, ◌||◌, ◌≡◌, refl, ◌==◌, has_key, contains,
  lookup, lookup-insert, lookup-erase, arith, eq_iff, Bool-cases, Option-cases, inl, inr, ok,
  insert, erase, remove, Dict, subst,
}
use qmtl.Registry.Links.{Links, at, unlink_all}
use qmtl.Registry.Links.Laws.{
  IsNodup, contains-link, link-IsNodup, contains-unlink, unlink-IsNodup, contains-unlink_all,
  unlink_all-IsNodup,
}
use qmtl.Registry.Nodes.{
  ProtoNode, NodeService, new_service, create_node, delete_node, add_contains_relationship,
  remove_contains_relationship, add_dependency, remove_dependency,
}

-- The strategy version `v` contains the node `n`.
abbrev pub linked : NodeService → String → String → Bool
linked s n v = contains v (at n s.node_strategy_map)

-- Both maps hold the same pairs, each once, and only pairs of nodes that exist.
pub record IsLinked (s : NodeService) : Type 0 where
  pub both : (n v : String) → contains n (at v s.strategy_node_map) ≡ linked s n v
  pub refs_nodup : IsNodup s.node_strategy_map
  pub members_nodup : IsNodup s.strategy_node_map
  pub known : (n v : String) → linked s n v ≡ true → has_key n s.nodes ≡ true

pub new_service-IsLinked : IsLinked new_service
unfolding lookup
new_service-IsLinked = record {
  both = λ n v. refl;
  refs_nodup = λ k. tt;
  members_nodup = λ k. tt;
  known = λ n v h. absurd (ground arith);
}

-- The relation is the same, and no node that has a link is lost.
pub same_links :
    (s s' : NodeService)
    → s'.node_strategy_map ≡ s.node_strategy_map
    → s'.strategy_node_map ≡ s.strategy_node_map
    → ((n : String) → has_key n s.nodes ≡ true → has_key n s'.nodes ≡ true)
    → IsLinked s
    → IsLinked s'
same_links s s' refs members keeps l = record {
  both = λ n v. rw (refs, members) (l.both n v);
  refs_nodup = rw refs l.refs_nodup;
  members_nodup = rw members l.members_nodup;
  known = λ n v h. keeps n (l.known n v (rw refs at h));
}

has_key-insert :
    (k n : String) (node : ProtoNode) (nodes : Dict ProtoNode)
    → has_key n nodes ≡ true
    → has_key n (insert k node nodes) ≡ true
has_key-insert k n node nodes h = ground (arith, lookup-insert k n node nodes)

pub create_node-IsLinked :
    (node : ProtoNode) (s s' : NodeService) (id : String)
    → create_node node s ≡ ok (s', id)
    → IsLinked s
    → IsLinked s'
unfolding create_node
create_node-IsLinked node s s' id h l = elim (Option-cases node.tags) [
  | inl none_given ↦ absurd (ground arith)
  | inr (tags, given) ↦
      let same : record s { nodes = insert node.node_id node s.nodes } ≡ s' = ground arith in
      subst IsLinked same (
        same_links s (record s { nodes = insert node.node_id node s.nodes }) refl refl
          (λ n. has_key-insert node.node_id n node s.nodes) l)
]

-- A link is added exactly for the given pair, and only where the node exists.
pub linked-add_contains_relationship :
    (s : NodeService) (v n m w : String)
    → linked (add_contains_relationship v n s) m w
      ≡ (linked s m w || (has_key n s.nodes && ((n == m) && (v == w))))
unfolding add_contains_relationship
linked-add_contains_relationship s v n m w =
    ground (arith, contains-link n v m w s.node_strategy_map)

pub add_contains_relationship-IsLinked :
    (v n : String) (s : NodeService) → IsLinked s → IsLinked (add_contains_relationship v n s)
unfolding add_contains_relationship
add_contains_relationship-IsLinked v n s l = elim (Bool-cases (has_key n s.nodes)) [
  | inl here ↦ rw here (record {
    both = λ m w. ground (
      arith,
      contains-link n v m w s.node_strategy_map,
      contains-link v n w m s.strategy_node_map,
      l.both m w,
    );
    refs_nodup = link-IsNodup n v s.node_strategy_map l.refs_nodup;
    members_nodup = link-IsNodup v n s.strategy_node_map l.members_nodup;
    known =
        λ m w h. ground (arith, contains-link n v m w s.node_strategy_map, l.known m w, eq_iff n m);
  })
  | inr gone ↦ rw gone l
]

-- A link is removed exactly for the given pair.
pub linked-remove_contains_relationship :
    (s : NodeService) (v n m w : String)
    → IsLinked s
    → linked (remove_contains_relationship v n s) m w ≡ (linked s m w && not ((n == m) && (v == w)))
unfolding remove_contains_relationship
linked-remove_contains_relationship s v n m w l =
    contains-unlink n v m w s.node_strategy_map l.refs_nodup

pub remove_contains_relationship-IsLinked :
    (v n : String) (s : NodeService) → IsLinked s → IsLinked (remove_contains_relationship v n s)
unfolding remove_contains_relationship
remove_contains_relationship-IsLinked v n s l = record {
  both = λ m w. ground (
    arith,
    contains-unlink n v m w s.node_strategy_map l.refs_nodup,
    contains-unlink v n w m s.strategy_node_map l.members_nodup,
    l.both m w,
  );
  refs_nodup = unlink-IsNodup n v s.node_strategy_map l.refs_nodup;
  members_nodup = unlink-IsNodup v n s.strategy_node_map l.members_nodup;
  known = λ m w h.
      ground (arith, contains-unlink n v m w s.node_strategy_map l.refs_nodup, l.known m w);
}

-- All links of the deleted node go, and no others.
pub linked-delete_node :
    (s : NodeService) (n m w : String)
    → IsLinked s
    → linked (delete_node n s).0 m w ≡ (linked s m w && not (n == m))
unfolding delete_node
linked-delete_node s n m w l =
    ground (arith, lookup-erase n m s.node_strategy_map, l.known m w, eq_iff n m)

erase-IsNodup : (k : String) (m : Links) → IsNodup m → IsNodup (erase k m)
erase-IsNodup k m n j = elim (Bool-cases (k == j)) [
  | inl same ↦ rw (lookup-erase, same) tt
  | inr other ↦ rw (lookup-erase, other) (n j)
]

-- The state that `delete_node` leaves where the node has links.
module _ (n : String) (s : NodeService) (l : IsLinked s) where
  abbrev pub unlinked : NodeService
  unlinked = record s {
    nodes = erase n s.nodes;
    strategy_node_map = unlink_all n (at n s.node_strategy_map) s.strategy_node_map;
    node_strategy_map = erase n s.node_strategy_map;
  }

  unlinked-IsLinked : IsLinked unlinked
  unlinked-IsLinked = record {
    both = λ m w. ground (
      arith,
      contains-unlink_all n (at n s.node_strategy_map) w m s.strategy_node_map l.members_nodup,
      lookup-erase n m s.node_strategy_map,
      l.both m w,
      eq_iff n m,
    );
    refs_nodup = erase-IsNodup n s.node_strategy_map l.refs_nodup;
    members_nodup =
        unlink_all-IsNodup n (at n s.node_strategy_map) s.strategy_node_map l.members_nodup;
    known = λ m w h. ground (
      arith,
      lookup-erase n m s.node_strategy_map,
      lookup-erase n m s.nodes,
      l.known m w,
      eq_iff n m,
    );
  }

  -- Without links, only the node itself goes.
  erased-IsLinked :
      has_key n s.node_strategy_map ≡ false → IsLinked (record s { nodes = erase n s.nodes })
  erased-IsLinked none_linked = record {
    both = l.both;
    refs_nodup = l.refs_nodup;
    members_nodup = l.members_nodup;
    known = λ m w h. ground (arith, lookup-erase n m s.nodes, l.known m w, eq_iff n m);
  }

  pub delete_node-IsLinked : IsLinked (delete_node n s).0
  unfolding delete_node
  delete_node-IsLinked = elim (Bool-cases (has_key n s.nodes)) [
    | inl here ↦ elim (Bool-cases (has_key n s.node_strategy_map)) [
      | inl refs ↦ rw (here, refs) unlinked-IsLinked
      | inr none_linked ↦ rw (here, none_linked) (erased-IsLinked none_linked)
    ]
    | inr gone ↦ rw gone l
  ]

pub add_dependency-IsLinked :
    (n d : String) (s : NodeService) → IsLinked s → IsLinked (add_dependency n d s)
unfolding add_dependency
add_dependency-IsLinked n d s l = elim (Option-cases (lookup n s.nodes)) [
  | inl absent ↦ rw (absent, add_dependency) l
  | inr (node, found) ↦
      let longer : ProtoNode = record node { dependencies = node.dependencies ++ d ∷ [] } in
      same_links s (add_dependency n d s) (ground arith) (ground arith)
        (λ m h. ground (arith, found, has_key-insert n m longer s.nodes)) l
]

pub remove_dependency-IsLinked :
    (n d : String) (s : NodeService) → IsLinked s → IsLinked (remove_dependency n d s)
unfolding remove_dependency
remove_dependency-IsLinked n d s l = elim (Option-cases (lookup n s.nodes)) [
  | inl absent ↦ rw (absent, remove_dependency) l
  | inr (node, found) ↦
      let shorter : ProtoNode = record node { dependencies = remove d node.dependencies } in
      same_links s (remove_dependency n d s) (ground arith) (ground arith)
        (λ m h. ground (arith, found, has_key-insert n m shorter s.nodes)) l
]
