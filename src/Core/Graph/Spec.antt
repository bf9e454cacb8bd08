-- ===== src/Core/Graph/Spec.antt =====
-- What a topological order is, and what a cycle is.
use qmtl.Base.{
  String, List, [], ◌∷◌, ◌++◌, ◌≡◌, true, false, some, lookup, contains, contains-append, Dict,
  arith,
}
use qmtl.Core.Node.{DataNode}

-- `y` is a dependency of the node that is stored under `x`.
pub record DependsOn (m : Dict DataNode) (x y : String) : Type 0 where
  pub node : DataNode
  pub stored : lookup x m ≡ some node
  pub listed : contains y node.dependencies ≡ true

-- A chain of one or more dependencies.
pub data Reaches (m : Dict DataNode) (x : String) : String → Type 0 where
  one : {y : String} → DependsOn m x y → Reaches m x y
  more : {y z : String} → Reaches m x y → DependsOn m y z → Reaches m x z

pub Reaches-cons :
    {m : Dict DataNode} {x y z : String} → DependsOn m x y → Reaches m y z → Reaches m x z
Reaches-cons e (one f) = more (one e) f
Reaches-cons e (more r f) = more (Reaches-cons e r) f

-- The node `x` is stored, is new, and each of its dependencies has been seen.
pub record CanFollow (m : Dict DataNode) (seen : List String) (x : String) : Type 0 where
  pub node : DataNode
  pub stored : lookup x m ≡ some node
  pub is_new : contains x seen ≡ false
  pub deps_seen : (d : String) → contains d node.dependencies ≡ true → contains d seen ≡ true

-- Each node of the order comes once, and after all of its dependencies.
abbrev pub IsOrdered : Dict DataNode → List String → List String → Type 0
IsOrdered m seen [] = Unit
IsOrdered m seen (x ∷ xs) = CanFollow m seen x × IsOrdered m (x ∷ seen) xs

-- The same names, in whatever order.
abbrev pub SameNames : List String → List String → Type 0
SameNames xs ys = (d : String) → contains d xs ≡ contains d ys

pub CanFollow-same :
    {m : Dict DataNode} {xs ys : List String} {x : String}
    → SameNames xs ys
    → CanFollow m xs x
    → CanFollow m ys x
CanFollow-same {x = x} same c = record {
  node = c.node;
  stored = c.stored;
  is_new = ground (arith, same x, c.is_new);
  deps_seen = λ d h. ground (arith, same d, c.deps_seen d h);
}

pub IsOrdered-snoc :
    {m : Dict DataNode} (seen xs : List String) (x : String)
    → IsOrdered m seen xs
    → CanFollow m (xs ++ seen) x
    → IsOrdered m seen (xs ++ x ∷ [])
IsOrdered-snoc seen [] x h c = (c, tt)
IsOrdered-snoc seen (y ∷ xs) x h c = (
  h.0,
  IsOrdered-snoc (y ∷ seen) xs x h.1 (
      CanFollow-same
        (λ d. ground (arith, contains-append d (y ∷ xs) seen, contains-append d xs (y ∷ seen))) c),
)
