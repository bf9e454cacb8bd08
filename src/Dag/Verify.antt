-- ===== src/Dag/Verify.antt =====
-- dag_manager/strategy/dag_service.py: `verify_acyclic`. The text of the error, which names a path
-- of the cycle, is left out; the error carries the node at which the cycle was closed.
pub mod Paths
pub mod Frame
pub mod Raised
pub mod Decides
use qmtl.Base.{
  ℕ, zero, suc, String, List, [], ◌∷◌, ◌++◌, ◌≡◌, refl, Bool, true, false, not, if◌then◌else◌, ◌==◌,
  contains, keep_if, length, Dict, lookup, lookup-insert, insert, has_key, keys, Result, ok, err,
  ◌>>=◌, arith, eq_iff,
}
use qmtl.Core.Graph.{discard}
use qmtl.Dag.{DagService, at}

pub data DagError : Type 0 where
  cyclic : String → DagError
  incomplete key_error out_of_fuel : DagError

-- Reading a missing key of a `defaultdict(list)` stores an empty list under it.
unfoldable pub touch : String → Dict (List String) → Dict (List String)
touch k d = if has_key k d then d else insert k [] d

-- What is read at any key stays the same.
pub at-touch : (k j : String) (d : Dict (List String)) → at j (touch k d) ≡ at j d
unfolding touch
at-touch k j d = ground (arith, lookup-insert k j [] d, eq_iff k j)

-- The local sets of `verify_acyclic`, and the map of upstreams that it reads.
pub record Walk : Type 0 where
  pub visited : List String
  pub temp_stack : List String
  pub upstreams : Dict (List String)

abbrev pub Detect : Type 0
Detect = String → Walk → Result DagError Walk

-- `for dep_id in …: dfs_detect_cycle(dep_id)`
unfoldable pub detect_all : Detect → List String → Walk → Result DagError Walk
detect_all v [] w = ok w
detect_all v (d ∷ ds) w = v d w >>= detect_all v ds

abbrev pub push : String → Walk → Walk
push node_id w = record {
  visited = node_id ∷ w.visited;
  temp_stack = node_id ∷ w.temp_stack;
  upstreams = touch node_id w.upstreams;
}

abbrev pub pop : String → Walk → Walk
pop node_id w = record w { temp_stack = discard node_id w.temp_stack }

-- Below the two tests of `dfs_detect_cycle`.
abbrev pub descend : Detect → Detect
descend v node_id w =
    detect_all v (at node_id w.upstreams) (push node_id w) >>= λ w'. ok (pop node_id w')

unfoldable pub detect : ℕ → Detect
detect zero node_id w = err out_of_fuel
detect (suc fuel) node_id w =
    if contains node_id w.temp_stack
    then err (cyclic node_id)
    else if contains node_id w.visited
    then ok w
    else descend (detect fuel) node_id w

-- `for node_id in self.nodes: if node_id not in visited: dfs_detect_cycle(node_id)`
unfoldable pub detect_unvisited : Detect → List String → Walk → Result DagError Walk
detect_unvisited v [] w = ok w
detect_unvisited v (n ∷ ns) w =
    let skipped = detect_unvisited v ns w in
    if contains n w.visited then skipped else (v n w >>= detect_unvisited v ns)

-- All names that are listed as upstreams.
abbrev pub all_listed : Dict (List String) → List String
all_listed [] = []
all_listed ((k, v) ∷ d) = v ++ all_listed d

-- Every name that the walk can meet.
abbrev pub names : DagService → List String
names g = keys g.nodes ++ all_listed g.reverse_adjacency_list

abbrev pub start : DagService → Walk
start g = record { visited = []; temp_stack = []; upstreams = g.reverse_adjacency_list }

unfoldable pub walk : DagService → Result DagError Walk
walk g = detect_unvisited (detect (suc (length (names g)))) (keys g.nodes) (start g)

abbrev pub mark_verified : DagService → Walk → DagService
mark_verified g w = record g { reverse_adjacency_list = w.upstreams; verified = true }

unfoldable pub verify_acyclic : DagService → Result DagError DagService
verify_acyclic g = walk g >>= λ w. ok (mark_verified g w)
