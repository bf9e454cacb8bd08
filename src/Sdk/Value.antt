-- ===== src/Sdk/Value.antt =====
-- What a node's function takes and returns: a text, or a dict of texts.
use qmtl.Base.{String, Dict}

pub data Value : Type 0 where
  atom : String → Value
  table : Dict String → Value
