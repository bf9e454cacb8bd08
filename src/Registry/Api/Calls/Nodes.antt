-- ===== src/Registry/Api/Calls/Nodes.antt =====
-- What the calls of the API about nodes, statuses and dependencies answer.
use Prim.Native.String
use qmtl.Base.{
  ℕ, String, List, [], ◌∷◌, ◌++◌, Bool, true, false, Option, none, some, Result, ok, err, ◌≡◌, refl,
  arith, lookup, lookup-insert, lookup-erase, Result-cases, inl, inr, ◌⊎◌, if◌then◌else◌, ◌==◌,
  eq_refl, contains, all, insert, nat_eq,
}
use qmtl.Registry.Nodes.{ProtoNode, NodeService}
use qmtl.Registry.Nodes
use qmtl.Registry.Services.{Exception, validation_error}
use qmtl.Registry.Services.Validation.{validate_proto_node, has_id_length, check_each}
use qmtl.Registry.Api.Json.{Json, Fields}
use qmtl.Registry.Api.{Reply, node_id, node, dependencies, status, node_missing, not_found}
use qmtl.Registry.Api
use qmtl.Registry.Api.Create
use qmtl.Registry.Api.Relations
use qmtl.Registry.Api.Statuses
use qmtl.Registry.Api.Calls.{
  Call, test_services, serve, create_node, get_node, delete_node, get_node_reference_count,
  get_node_reference_strategies, get_node_dependencies, get_node_status, add_node_to_strategy,
  add_node_dependency, remove_node_dependency, update_node_status,
}

handlers : Unit {0}
unfolding serve Api.get_node Api.delete_node Relations.add_node_to_strategy
    Relations.get_node_reference_count Relations.get_node_reference_strategies
    Relations.get_node_dependencies Relations.add_node_dependency Relations.remove_node_dependency
    Statuses.get_node_status Statuses.update_node_status Nodes.get_node Nodes.delete_node
    Nodes.get_node_status Nodes.update_node_status
handlers = tt

-- The node that a call cannot do without
abbrev pub needed : Call → Option String
needed (get_node n) = some n
needed (delete_node n) = some n
needed (get_node_reference_count n) = some n
needed (get_node_reference_strategies n) = some n
needed (get_node_dependencies n) = some n
needed (add_node_to_strategy v n) = some n
needed (add_node_dependency n d) = some n
needed (remove_node_dependency n d) = some n
needed _ = none

module _ (parse : Fields → Result Exception ProtoNode) (b : Bool) where
  -- A call about a node that is not stored fails with 404 and changes nothing.
  pub serve-missing :
      (c : Call) (n : String) (s : NodeService)
      → needed c ≡ some n
      → lookup n s.nodes ≡ none
      → serve parse (test_services b) c s ≡ (s, err (node_missing n))
  unfolding handlers
  serve-missing c n s h absent = ground arith

  -- A status that a call stores is what the next call reads, for the same node, unless it is falsy, in
  -- which case that call fails with 404; the statuses of other nodes are as they were.
  pub get_node_status-update_node_status :
      (n m text : String) (s : NodeService)
      → (serve parse
          (test_services b)
          (get_node_status m)
          (serve parse (test_services b) (update_node_status n text) s).0).1
        ≡ (if n == m
            then (if text == "" then err (not_found "노드 상태를 찾을 수 없습니다: " m) else ok (status text))
            else (serve parse (test_services b) (get_node_status m) s).1)
  unfolding handlers
  get_node_status-update_node_status n m text s =
      ground (arith, lookup-insert n m text s.node_statuses)

  -- Where both nodes are stored, a dependency that is added is listed afterwards, once.
  pub get_node_dependencies-add_node_dependency :
      (n d : String) (s : NodeService) (here there : ProtoNode)
      → lookup n s.nodes ≡ some here
      → lookup d s.nodes ≡ some there
      → (serve parse
          (test_services b)
          (get_node_dependencies n)
          (serve parse (test_services b) (add_node_dependency n d) s).0).1
        ≡ ok (
            dependencies (
              if contains d here.dependencies
              then here.dependencies
              else here.dependencies ++ d ∷ []))
  unfolding handlers Nodes.add_dependency Nodes.get_node_dependencies
  get_node_dependencies-add_node_dependency n d s here there found found' = ground (
    arith,
    eq_refl n,
    lookup-insert n n (record here { dependencies = here.dependencies ++ d ∷ [] }) s.nodes,
  )

-- What validation asks for: an id of 32 characters, and 32 in each dependency, in a container that counts
-- as a list.
pub record IsValid (is_sequence : Bool) (node : ProtoNode) : Type 0 where
  pub id_length : String.count node.node_id ≡ 32
  pub dependencies_listed : (node.dependencies ≡ []) ⊎ (is_sequence ≡ true)
  pub dependency_lengths : all has_id_length node.dependencies ≡ true

nat_eq-eq : (a b : ℕ) → nat_eq a b ≡ true → a ≡ b
nat_eq-eq a b h = ground arith

check_each-all : (ds : List String) → check_each ds ≡ ok tt → all has_id_length ds ≡ true
check_each-all [] h = refl
check_each-all (d ∷ ds) h = ground (arith, check_each-all ds)

module _ (b : Bool) (n : ProtoNode) (h : validate_proto_node b n ≡ ok tt) where
  id_length_of : String.count n.node_id ≡ 32
  unfolding validate_proto_node
  id_length_of = nat_eq-eq (String.count n.node_id) 32 (ground arith)

  validate-IsValid : (ds : List String) → n.dependencies ≡ ds → IsValid b n
  unfolding validate_proto_node
  validate-IsValid [] e = record {
    id_length = id_length_of;
    dependencies_listed = inl e;
    dependency_lengths = rw e refl;
  }
  validate-IsValid (d ∷ ds) e = record {
    id_length = id_length_of;
    dependencies_listed = inr (ground arith);
    dependency_lengths = rw e (check_each-all (d ∷ ds) (ground arith));
  }

no_id-invalid :
    (b : Bool) (n : ProtoNode)
    → n.node_id ≡ ""
    → validate_proto_node b n ≡ err (validation_error "node_id must be a 32-character hex string")
unfolding validate_proto_node
no_id-invalid b n no_id = rw no_id refl

module _ (parse : Fields → Result Exception ProtoNode) (b : Bool) where
  -- A node that is registered was parsed from the normalized dict and is valid.
  create_node_lem :
      (given : Option Json) (s s' : NodeService) (r : Reply)
      → serve parse (test_services b) (create_node given) s ≡ (s', ok r)
      → (n : ProtoNode) × IsValid b n
        × (r ≡ node_id n.node_id)
        × (s' ≡ record s { nodes = insert n.node_id n s.nodes })
  unfolding serve Create.create_node
  create_node_lem given s s' r h = elim (Result-cases (Create.normalize given)) [
    | inr (e, raised) ↦ absurd (ground arith)
    | inl (fields, normal) ↦ elim (Result-cases (parse fields)) [
      | inr (e, raised) ↦ absurd (ground arith)
      | inl (n, parsed) ↦ elim (Result-cases (validate_proto_node b n)) [
        | inr (e, raised) ↦ absurd (ground arith)
        | inl (u, valid) ↦
            unfold Nodes.create_node in
            (n, validate-IsValid b n valid n.dependencies refl, ground arith, ground arith)
      ]
    ]
  ]

  -- A node that is registered is valid and what the next call for its id returns; once it is deleted, that
  -- call fails with 404.
  pub create_node-get_node :
      (given : Option Json) (s s' : NodeService) (id : String)
      → serve parse (test_services b) (create_node given) s ≡ (s', ok (node_id id))
      → (n : ProtoNode) × IsValid b n
        × (n.node_id ≡ id)
        × (serve parse (test_services b) (get_node id) s' ≡ (s', ok (node n)))
        × ((serve parse
              (test_services b)
              (get_node id)
              (serve parse (test_services b) (delete_node id) s').0).1
            ≡ err (node_missing id))
  unfolding handlers
  create_node-get_node given s s' id h =
      let (n, valid, named, stored) = create_node_lem given s s' (node_id id) h in
      let same : n.node_id ≡ id = ground arith in
      let found : lookup id s'.nodes ≡ some n =
        rw (stored, same) (ground (arith, lookup-insert id id n s.nodes, eq_refl id)) in
      (n, valid, same, ground arith, ground (arith, lookup-erase id id s'.nodes, eq_refl id))

module _ (parse : Fields → Result Exception ProtoNode) where
  -- Where protobuf's repeated fields are not Python lists, a node that is registered has no dependencies.
  pub create_node-no_dependencies :
      (given : Option Json) (s s' : NodeService) (id : String)
      → serve parse (test_services false) (create_node given) s ≡ (s', ok (node_id id))
      → serve parse (test_services false) (get_node_dependencies id) s' ≡ (s', ok (dependencies []))
  unfolding handlers Nodes.get_node_dependencies
  create_node-no_dependencies given s s' id h =
      let (n, valid, named, stored) = create_node_lem parse false given s s' (node_id id) h in
      let same : n.node_id ≡ id = ground arith in
      let none_given : n.dependencies ≡ [] = ground (arith, valid.dependencies_listed) in
      let found : lookup id s'.nodes ≡ some n =
        rw (stored, same) (ground (arith, lookup-insert id id n s.nodes, eq_refl id)) in
      ground arith
