-- ===== src/Dag/Verify/Paths.antt =====
-- Chains of dependencies in the upstream map.
use qmtl.Base.{String, List, Dict, ◌≡◌, true, contains}
use qmtl.Dag.{at}

-- `y` is listed as an upstream of `x`.
abbrev pub Lists : Dict (List String) → String → String → Type 0
Lists up x y = contains y (at x up) ≡ true

-- A chain of one or more upstream steps.
pub data Reaches (up : Dict (List String)) (x : String) : String → Type 0 where
  one : {y : String} → Lists up x y → Reaches up x y
  more : {y z : String} → Reaches up x y → Lists up y z → Reaches up x z

pub Reaches-cons :
    {up : Dict (List String)} {x y z : String} → Lists up x y → Reaches up y z → Reaches up x z
Reaches-cons e (one f) = more (one e) f
Reaches-cons e (more r f) = more (Reaches-cons e r) f

-- Two maps that read alike have the same chains.
pub Reaches-same :
    {up up' : Dict (List String)} {x y : String}
    → ((k : String) → at k up ≡ at k up')
    → Reaches up x y
    → Reaches up' x y
Reaches-same same (one {y} e) = one (rw (← same _) e)
Reaches-same same (more {y} {z} r e) = more (Reaches-same same r) (rw (← same _) e)
