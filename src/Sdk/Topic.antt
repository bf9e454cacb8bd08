-- ===== src/Sdk/Topic.antt =====
-- sdk/topic.py: the names of the topics of a node. The creation of topics is Kafka's.
use Prim.Native.Char.{code}
use Prim.Native.String.{String, [], ◌∷◌, ◌++◌}
use qmtl.Base.{ℕ, Bool, ◌||◌, ◌&&◌, leb, nat_eq, if◌then◌else◌}

-- `[a-zA-Z0-9_.-]`, by the number of the character
abbrev is_allowed : ℕ → Bool
is_allowed n =
    (leb b'a' n && leb n b'z')
    || ((leb b'A' n && leb n b'Z')
        || ((leb b'0' n && leb n b'9') || (nat_eq n b'_' || (nat_eq n b'.' || nat_eq n b'-'))))

unfoldable pub sanitize_name : String → String
sanitize_name [] = []
sanitize_name (c ∷ s) = (if is_allowed (code c) then c else "_") ∷ sanitize_name s

unfoldable pub get_input_topic : (pipeline_name node_name : String) → String
get_input_topic pipeline_name node_name =
    "qmtl.input." ++ (sanitize_name pipeline_name ++ ("." ++ sanitize_name node_name))

unfoldable pub get_output_topic : (pipeline_name node_name : String) → String
get_output_topic pipeline_name node_name =
    "qmtl.output." ++ (sanitize_name pipeline_name ++ ("." ++ sanitize_name node_name))
