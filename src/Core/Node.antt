-- ===== src/Core/Node.antt =====
-- models/datanode.py: the part of a `DataNode` that the DAG code reads. What it does not read (the
-- type, the data format, the parameters, the stream settings) is the `payload`.
use qmtl.Base.{String, List, Dict, [], ◌∷◌, insert}

pub record DataNode : Type 0 where
  pub node_id : String
  pub dependencies : List String
  pub payload : String

-- `{n.node_id: n for n in nodes}`, later nodes over earlier ones.
abbrev pub add_all : Dict DataNode → List DataNode → Dict DataNode
add_all m [] = m
add_all m (n ∷ ns) = add_all (insert n.node_id n m) ns

unfoldable pub node_map_of : List DataNode → Dict DataNode
node_map_of nodes = add_all [] nodes
