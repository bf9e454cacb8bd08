-- ===== src/Core/Ready/Selection.antt =====
-- What the selector returns: exactly the nodes of the order that may run.
use mathlib.Core.Bool.{false≢true}
use qmtl.Base.{
  String, List, [], ◌∷◌, ◌≡◌, refl, true, false, none, some, ◌==◌, ◌&&◌, lookup, insert,
  lookup-insert, Dict, contains, arith, eq_iff, keep_if, keep_if_cong, all, ok, Bool, bind-eq-ok,
  subst, ◌∙◌, Option, inl, inr, Bool-cases, sym,
}
use qmtl.Core.Node.{DataNode, node_map_of, add_all}
use qmtl.Core.Graph.{ids, build_dag, get_topological_sort_result}
use qmtl.Core.Graph.Spec.{IsOrdered}
use qmtl.Core.Graph.Order.{get_topological_sort_result-IsOrdered}
use qmtl.Core.Ready.{
  is_pending, is_completed, is_ready, select, reverse_adjacency_list, get_ready_nodes,
}
use qmtl.Core.Ready.Edges.{deps_given, reverse_adjacency_list_lem}

-- May run: waiting, and every dependency given for it is completed.
abbrev pub may_run : List DataNode → Dict String → String → Bool
may_run nodes statuses x =
    is_pending (lookup x statuses)
    && all (λ dep. is_completed (lookup dep statuses)) (deps_given x nodes)

-- The node stored under a name has that name.
abbrev IsNamed : Dict DataNode → Type 0
IsNamed m = (x : String) (n : DataNode) → lookup x m ≡ some n → n.node_id ≡ x

insert-IsNamed : (n : DataNode) (m : Dict DataNode) → IsNamed m → IsNamed (insert n.node_id n m)
insert-IsNamed n m named x k h =
    ground (arith, lookup-insert n.node_id x n m, named x k, eq_iff n.node_id x)

add_all-IsNamed : (ns : List DataNode) (m : Dict DataNode) → IsNamed m → IsNamed (add_all m ns)
add_all-IsNamed [] m named = named
add_all-IsNamed (n ∷ ns) m named =
    add_all-IsNamed ns (insert n.node_id n m) (insert-IsNamed n m named)

node_map_of-IsNamed : (nodes : List DataNode) → IsNamed (node_map_of nodes)
unfolding node_map_of
node_map_of-IsNamed nodes =
    add_all-IsNamed nodes [] (λ x n h. absurd (unfold lookup in ground arith))

module _ (statuses : Dict String) (edges : Dict (List String)) (m : Dict DataNode)
    (named : IsNamed m) where
  select_lem :
      (seen xs : List String)
      → IsOrdered m seen xs
      → (ns : List DataNode) × (select statuses edges m xs ≡ ok ns)
        × (ids ns ≡ keep_if (is_ready statuses edges) xs)
  unfolding select
  select_lem seen [] h = ([], refl, refl)
  select_lem seen (x ∷ xs) h =
      let (ns, rest, names) = select_lem (x ∷ seen) xs h.1 in
      let first = h.0 in
      elim (Bool-cases (is_ready statuses edges x)) [
        | inl now ↦ (
          first.node ∷ ns,
          ground (arith, first.stored),
          ground (arith, named x first.node first.stored),
        )
        | inr later ↦ (ns, ground arith, ground arith)
      ]

-- Where the nodes have a topological order, the selector returns, in that order and with nothing
-- left out, the nodes that may run: waiting ones, all of whose dependencies are completed.
pub get_ready_nodes_lem :
    (nodes : List DataNode) (statuses : Dict String) (order : List String)
    → get_topological_sort_result nodes ≡ ok order
    → (ready : List DataNode) × (get_ready_nodes nodes statuses ≡ ok ready)
      × (ids ready ≡ keep_if (may_run nodes statuses) order)
unfolding get_ready_nodes build_dag
get_ready_nodes_lem nodes statuses order h =
    let edges = reverse_adjacency_list nodes in
    let (ordered, _) = get_topological_sort_result-IsOrdered nodes order h in
    let (ready, selected, names) =
      select_lem statuses edges (node_map_of nodes) (node_map_of-IsNamed nodes) [] order ordered in
    let same =
      keep_if_cong (is_ready statuses edges) (may_run nodes statuses) order
        (λ x. ground (arith, reverse_adjacency_list_lem nodes x)) in
    (ready, rw h selected, names ∙ same)

contains-keep_if :
    (p : String → Bool) (x : String) (xs : List String)
    → contains x (keep_if p xs) ≡ true
    → p x ≡ true
contains-keep_if p x [] h = absurd (ground arith)
contains-keep_if p x (y ∷ xs) h = elim (Bool-cases (p y)) [
  | inl kept ↦ elim (Bool-cases (y == x)) [
    | inl here ↦ subst (λ z. p z ≡ true) ((eq_iff y x).0 here) kept
    | inr there ↦ contains-keep_if p x xs (ground arith)
  ]
  | inr dropped ↦ contains-keep_if p x xs (ground arith)
]

all-contains :
    (p : String → Bool) (x : String) (xs : List String)
    → all p xs ≡ true
    → contains x xs ≡ true
    → p x ≡ true
all-contains p x [] h given = absurd (ground arith)
all-contains p x (y ∷ xs) h given = elim (Bool-cases (y == x)) [
  | inl here ↦ subst (λ z. p z ≡ true) ((eq_iff y x).0 here) (ground arith)
  | inr there ↦ all-contains p x xs (ground arith) (ground arith)
]

pub not_both : (state : Option String) → is_pending state ≡ true → is_completed state ≡ true → ⊥
not_both none p c = cc
not_both (some s) p c =
    false≢true (subst (λ t. is_pending (some t) ≡ true) ((eq_iff s "COMPLETED").0 c) p)

has_order :
    (nodes : List DataNode) (statuses : Dict String) (ready : List DataNode)
    → get_ready_nodes nodes statuses ≡ ok ready
    → (order : List String) × (get_topological_sort_result nodes ≡ ok order)
unfolding get_ready_nodes build_dag
has_order nodes statuses ready h =
    let (built, e, _) = bind-eq-ok (build_dag nodes) _ h in
    let (order, sorted, _) = bind-eq-ok (get_topological_sort_result nodes) _ e in (order, sorted)

-- Each ready node may run.
pub ready-may_run :
    (nodes : List DataNode) (statuses : Dict String) (ready : List DataNode) (x : String)
    → get_ready_nodes nodes statuses ≡ ok ready
    → contains x (ids ready) ≡ true
    → may_run nodes statuses x ≡ true
ready-may_run nodes statuses ready x h given =
    let (order, sorted) = has_order nodes statuses ready h in
    let (ready', e, names) = get_ready_nodes_lem nodes statuses order sorted in
    let same : ready' ≡ ready = ground (arith, e, h) in
    contains-keep_if (may_run nodes statuses) x order (
      subst (λ l. contains x l ≡ true) names
        (subst (λ l. contains x (ids l) ≡ true) (sym same) given))

-- Ready nodes can run side by side: none of them is a dependency of another, nor of itself.
pub ready_nodes_independent :
    (nodes : List DataNode) (statuses : Dict String) (ready : List DataNode) (x y : String)
    → get_ready_nodes nodes statuses ≡ ok ready
    → contains x (ids ready) ≡ true
    → contains y (ids ready) ≡ true
    → contains y (deps_given x nodes) ≡ false
ready_nodes_independent nodes statuses ready x y h in_x in_y =
    let runs_x = ready-may_run nodes statuses ready x h in_x in
    let runs_y = ready-may_run nodes statuses ready y h in_y in
    elim (Bool-cases (contains y (deps_given x nodes))) [
      | inr absent ↦ absent
      | inl listed ↦
          let done =
            all-contains (λ dep. is_completed (lookup dep statuses)) y (deps_given x nodes)
              (ground arith) listed in
          absurd (not_both (lookup y statuses) (ground arith) done)
    ]
