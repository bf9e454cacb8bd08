-- ===== src/Registry/Nodes/Spec/Refines.antt =====
-- The node service keeps its promise, call by call.
use qmtl.Base.{
  String, List, [], ◌∷◌, ◌++◌, not, ◌&&◌, none, some, is_some, ◌≡◌, refl, ◌∙◌, sym, ap, subst, ◌==◌,
  if◌then◌else◌, has_key, contains, remove, lookup, lookup-insert, lookup-erase, arith, eq_iff,
  Bool-cases, Option-cases, inl, inr, insert, erase,
}
use qmtl.Registry.Links.{at}
use qmtl.Registry.Nodes.{
  ProtoNode, NodeTags, NodeService, new_service, create_node, delete_node,
  add_contains_relationship, remove_contains_relationship, update_node_status, add_dependency,
  remove_dependency,
}
use qmtl.Registry.Nodes.Linked.{
  IsLinked, new_service-IsLinked, linked-add_contains_relationship,
  linked-remove_contains_relationship, linked-delete_node,
}
use qmtl.Registry.Nodes.Run.{
  Call, created, create, delete, add_link, remove_link, set_status, add_dep, remove_dep, step, run,
  step-IsLinked,
}
use qmtl.Registry.Nodes.Spec.{
  Registry, no_nodes, add_if_new, remove_one, store_tagged, spec_step, spec_run, dependencies_of,
  Implements,
}

has_key-dependencies :
    (n : String) (s : NodeService) → has_key n s.nodes ≡ is_some (dependencies_of n s)
has_key-dependencies n s = elim (Option-cases (lookup n s.nodes)) [
  | inl e ↦ ground arith
  | inr (node, e) ↦ ground arith
]

-- The dependencies in the service after a node is stored, or goes.
dependencies_of-insert :
    (k n : String) (node : ProtoNode) (s s' : NodeService)
    → s'.nodes ≡ insert k node s.nodes
    → dependencies_of n s' ≡ (if k == n then some node.dependencies else dependencies_of n s)
dependencies_of-insert k n node s s' h = elim (Bool-cases (k == n)) [
  | inl same ↦ ground (arith, lookup-insert k n node s.nodes)
  | inr other ↦ ground (arith, lookup-insert k n node s.nodes)
]

dependencies_of-erase :
    (k n : String) (s s' : NodeService)
    → s'.nodes ≡ erase k s.nodes
    → dependencies_of n s' ≡ (if k == n then none else dependencies_of n s)
dependencies_of-erase k n s s' h = ground (arith, lookup-erase k n s.nodes)

create_node-tagged :
    (node : ProtoNode) (s : NodeService) (tags : NodeTags)
    → node.tags ≡ some tags
    → record s { nodes = insert node.node_id node s.nodes } ≡ created s (create_node node s)
unfolding create_node
create_node-tagged node s tags h = ground arith

create_node-untagged :
    (node : ProtoNode) (s : NodeService) → node.tags ≡ none → s ≡ created s (create_node node s)
unfolding create_node
create_node-untagged node s h = ground arith

created-Implements :
    (node : ProtoNode) (s : NodeService) (r : Registry)
    → Implements s r
    → Implements (created s (create_node node s)) (store_tagged node.tags node r)
created-Implements node s r i = elim (Option-cases node.tags) [
  | inl h ↦
      subst (λ t. Implements (created s (create_node node s)) (store_tagged t node r)) (sym h)
        (subst (λ s'. Implements s' r) (create_node-untagged node s h) i)
  | inr (tags, h) ↦
      let s₁ : NodeService = record s { nodes = insert node.node_id node s.nodes } in
      let i₁ : Implements s₁ (store_tagged (some tags) node r) = record {
        nodes = λ n.
            dependencies_of-insert node.node_id n node s s₁ refl
            ∙ ap (λ d. if node.node_id == n then some node.dependencies else d) (i.nodes n);
        links = i.links;
        statuses = i.statuses;
      } in
      subst (λ t. Implements (created s (create_node node s)) (store_tagged t node r)) (sym h)
        (subst (λ s'. Implements s' (store_tagged (some tags) node r))
          (create_node-tagged node s tags h) i₁)
]

-- What `delete_node` does to the parts that a reader sees.
delete_node-dependencies :
    (n m : String) (s : NodeService)
    → dependencies_of m (delete_node n s).0 ≡ (if n == m then none else dependencies_of m s)
unfolding delete_node
delete_node-dependencies n m s = elim (Bool-cases (has_key n s.nodes)) [
  | inl here ↦ ground (arith, lookup-erase n m s.nodes)
  | inr gone ↦ ground (arith, eq_iff n m)
]

delete_node-statuses :
    (n : String) (s : NodeService) → (delete_node n s).0.node_statuses ≡ s.node_statuses
unfolding delete_node
delete_node-statuses n s = ground arith

-- A node is stored again with changed dependencies, if there is something to change.
add_dependency-dependencies :
    (n d m : String) (s : NodeService)
    → dependencies_of m (add_dependency n d s) ≡ (
        if n == m
        then (elim (dependencies_of m s) [
          | none ↦ none
          | some ds ↦ some (add_if_new (is_some (dependencies_of d s)) d ds)
        ])
        else dependencies_of m s)
unfolding add_dependency
add_dependency-dependencies n d m s = elim (Option-cases (lookup n s.nodes)) [
  | inl e ↦ ground (arith, eq_iff n m)
  | inr (node, e) ↦ ground (
    arith,
    lookup-insert n m (record node { dependencies = node.dependencies ++ d ∷ [] }) s.nodes,
    eq_iff n m,
    has_key-dependencies d s,
  )
]

remove_dependency-dependencies :
    (n d m : String) (s : NodeService)
    → dependencies_of m (remove_dependency n d s) ≡ (
        if n == m
        then (elim (dependencies_of m s) [ none ↦ none | some ds ↦ some (remove_one d ds) ])
        else dependencies_of m s)
unfolding remove_dependency
remove_dependency-dependencies n d m s = elim (Option-cases (lookup n s.nodes)) [
  | inl e ↦ ground (arith, eq_iff n m)
  | inr (node, e) ↦ ground (
    arith,
    lookup-insert n m (record node { dependencies = remove d node.dependencies }) s.nodes,
    eq_iff n m,
  )
]

-- Links and statuses stay as they are where only the nodes change.
add_dependency-rest :
    (n d : String) (s : NodeService)
    → ((add_dependency n d s).node_strategy_map ≡ s.node_strategy_map)
      × ((add_dependency n d s).node_statuses ≡ s.node_statuses)
unfolding add_dependency
add_dependency-rest n d s = elim (Option-cases (lookup n s.nodes)) [
  | inl e ↦ (ground arith, ground arith)
  | inr (node, e) ↦ (ground arith, ground arith)
]

remove_dependency-rest :
    (n d : String) (s : NodeService)
    → ((remove_dependency n d s).node_strategy_map ≡ s.node_strategy_map)
      × ((remove_dependency n d s).node_statuses ≡ s.node_statuses)
unfolding remove_dependency
remove_dependency-rest n d s = elim (Option-cases (lookup n s.nodes)) [
  | inl e ↦ (ground arith, ground arith)
  | inr (node, e) ↦ (ground arith, ground arith)
]

add_link-rest :
    (v n : String) (s : NodeService)
    → ((add_contains_relationship v n s).nodes ≡ s.nodes)
      × ((add_contains_relationship v n s).node_statuses ≡ s.node_statuses)
unfolding add_contains_relationship
add_link-rest v n s = (ground arith, ground arith)

step-Implements :
    (s : NodeService) (r : Registry) (c : Call)
    → IsLinked s
    → Implements s r
    → Implements (step s c) (spec_step r c)
unfolding step
step-Implements s r (create node) l i = created-Implements node s r i
step-Implements s r (delete n) l i = record {
  nodes = λ m. delete_node-dependencies n m s ∙ ap (λ d. if n == m then none else d) (i.nodes m);
  links = λ m v. linked-delete_node s n m v l ∙ ap (λ b. b && not (n == m)) (i.links m v);
  statuses = λ m. ap (lookup m) (delete_node-statuses n s) ∙ i.statuses m;
}
step-Implements s r (add_link v n) l i = record {
  nodes = λ m. ground (arith, add_link-rest v n s, i.nodes m);
  links = λ m w. ground (
    arith,
    linked-add_contains_relationship s v n m w,
    has_key-dependencies n s,
    i.nodes n,
    i.links m w,
  );
  statuses = λ m. ap (lookup m) (add_link-rest v n s).1 ∙ i.statuses m;
}
step-Implements s r (remove_link v n) l i = record {
  nodes = λ m. unfold remove_contains_relationship in i.nodes m;
  links = λ m w.
      linked-remove_contains_relationship s v n m w l
      ∙ ap (λ b. b && not ((n == m) && (v == w))) (i.links m w);
  statuses = λ m. unfold remove_contains_relationship in i.statuses m;
}
step-Implements s r (set_status n status) l i = record {
  nodes = λ m. unfold update_node_status in i.nodes m;
  links = λ m w. unfold update_node_status in i.links m w;
  statuses = λ m.
      unfold update_node_status in
      ground (arith, lookup-insert n m status s.node_statuses, i.statuses m);
}
step-Implements s r (add_dep n d) l i = record {
  nodes = λ m. ground (arith, add_dependency-dependencies n d m s, i.nodes m, i.nodes d);
  links = λ m w. ap (λ k. contains w (at m k)) (add_dependency-rest n d s).0 ∙ i.links m w;
  statuses = λ m. ap (lookup m) (add_dependency-rest n d s).1 ∙ i.statuses m;
}
step-Implements s r (remove_dep n d) l i = record {
  nodes = λ m. ground (arith, remove_dependency-dependencies n d m s, i.nodes m);
  links = λ m w. ap (λ k. contains w (at m k)) (remove_dependency-rest n d s).0 ∙ i.links m w;
  statuses = λ m. ap (lookup m) (remove_dependency-rest n d s).1 ∙ i.statuses m;
}

run_from-Implements :
    (s : NodeService) (r : Registry) (cs : List Call)
    → IsLinked s
    → Implements s r
    → Implements (run s cs) (spec_run r cs)
unfolding run spec_run
run_from-Implements s r [] l i = i
run_from-Implements s r (c ∷ cs) l i =
    run_from-Implements (step s c) (spec_step r c) cs (step-IsLinked s c l)
      (step-Implements s r c l i)

-- After any sequence of calls on a new service, what it holds of nodes and their dependencies, of links
-- and of statuses is what the same calls leave in a registry that knows only these three.
pub run-Implements : (cs : List Call) → Implements (run new_service cs) (spec_run no_nodes cs)
unfolding lookup
run-Implements cs =
    run_from-Implements new_service no_nodes cs new_service-IsLinked
      (record { nodes = λ n. refl; links = λ n v. refl; statuses = λ n. refl })
