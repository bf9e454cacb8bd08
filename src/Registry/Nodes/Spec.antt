-- ===== src/Registry/Nodes/Spec.antt =====
-- What the node service promises, without its maps: which nodes there are and on what they depend, which
-- strategy version contains which node, and the statuses. Order and representation are forgotten.
pub mod Refines
use qmtl.Base.{
  String, List, [], ◌∷◌, ◌++◌, Bool, true, false, not, ◌&&◌, ◌||◌, Option, none, some, is_some, ◌≡◌,
  refl, ◌∙◌, sym, ap, subst, ◌==◌, if◌then◌else◌, has_key, contains, remove, lookup, lookup-insert,
  lookup-erase, arith, eq_iff, eq_refl, Bool-cases, Option-cases, inl, inr, ok, err, Result, insert,
  erase,
}
use qmtl.Registry.Links.{Links, at}
use qmtl.Registry.Links.Laws.{contains-link, contains-unlink}
use qmtl.Registry.Nodes.{
  NameError, ProtoNode, NodeTags, NodeService, new_service, create_node, delete_node,
  add_contains_relationship, remove_contains_relationship, update_node_status, add_dependency,
  remove_dependency,
}
use qmtl.Registry.Nodes.Linked.{
  IsLinked, linked, new_service-IsLinked, linked-add_contains_relationship,
  linked-remove_contains_relationship, linked-delete_node,
}
use qmtl.Registry.Nodes.Run.{
  Call, created, create, delete, add_link, remove_link, set_status, add_dep, remove_dep, step, run,
  step-IsLinked,
}

pub record Registry : Type 0 where
  pub dependencies : String → Option (List String)
  pub contained : String → String → Bool
  pub status : String → Option String

abbrev pub no_nodes : Registry
no_nodes = record { dependencies = λ n. none; contained = λ n v. false; status = λ n. none }

abbrev pub map_dependencies : String → (List String → List String) → Registry → Registry
map_dependencies n f r = record r {
  dependencies = λ m.
      if n == m
      then (elim (r.dependencies m) [ none ↦ none | some ds ↦ some (f ds) ])
      else r.dependencies m;
}

abbrev pub add_if_new : (known : Bool) → String → List String → List String
add_if_new known d ds = if known && not (contains d ds) then ds ++ d ∷ [] else ds

abbrev pub remove_one : String → List String → List String
remove_one d ds = if contains d ds then remove d ds else ds

abbrev pub store_tagged : Option NodeTags → ProtoNode → Registry → Registry
store_tagged none node r = r
store_tagged (some tags) node r = record r {
  dependencies = λ m. if node.node_id == m then some node.dependencies else r.dependencies m;
}

-- What each call does: a node without tags is refused, a link needs the node, a dependency both nodes,
-- and a node takes its links with it, but not its status.
abbrev pub spec_step : Registry → Call → Registry
spec_step r (create node) = store_tagged node.tags node r
spec_step r (delete n) = record r {
  dependencies = λ m. if n == m then none else r.dependencies m;
  contained = λ m v. r.contained m v && not (n == m);
}
spec_step r (add_link v n) = record r {
  contained = λ m w. r.contained m w || (is_some (r.dependencies n) && ((n == m) && (v == w)));
}
spec_step r (remove_link v n) = record r {
  contained = λ m w. r.contained m w && not ((n == m) && (v == w));
}
spec_step r (set_status n s) = record r { status = λ m. if n == m then some s else r.status m }
spec_step r (add_dep n d) = map_dependencies n (add_if_new (is_some (r.dependencies d)) d) r
spec_step r (remove_dep n d) = map_dependencies n (remove_one d) r

unfoldable pub spec_run : Registry → List Call → Registry
spec_run r [] = r
spec_run r (c ∷ cs) = spec_run (spec_step r c) cs

abbrev pub dependencies_of : String → NodeService → Option (List String)
dependencies_of n s = elim (lookup n s.nodes) [ none ↦ none | some node ↦ some node.dependencies ]

pub record Implements (s : NodeService) (r : Registry) : Type 0 where
  pub nodes : (n : String) → dependencies_of n s ≡ r.dependencies n
  pub links : (n v : String) → linked s n v ≡ r.contained n v
  pub statuses : (n : String) → lookup n s.node_statuses ≡ r.status n
