-- ===== src/Sdk/Node.antt =====
-- sdk/node.py: how a processing node turns its inputs into the arguments of its function. A function is
-- what `inspect.signature` tells of it and what a call returns or raises.
use qmtl.Base.{
  String, List, [], ◌∷◌, Bool, true, false, ◌&&◌, none, some, ◌==◌, if◌then◌else◌, nat_eq, contains,
  length, Dict, lookup, insert, has_key, Result, ok, err, ◌>>=◌,
}
use qmtl.Sdk.Value.{Value, atom, table}
use qmtl.Sdk.Pipeline.{ProcessingNode}

pub record Function : Type 0 where
  pub param_names : List String
  pub has_kwargs : Bool
  pub call : Dict Value → Result String Value

-- `raised` carries the exception of the function, without the text put before it.
pub data NodeError : Type 0 where
  no_upstreams key_error : NodeError
  missing_input : (name upstream : String) → NodeError
  raised : String → NodeError

abbrev pub is_empty : List String → Bool
is_empty [] = true
is_empty (x ∷ xs) = false

-- The test of the constructor.
unfoldable pub new_processing_node : ProcessingNode → Result NodeError ProcessingNode
new_processing_node node = if is_empty node.upstreams then err no_upstreams else ok node

unfoldable pub validate_upstreams :
    (name : String) → (upstreams : List String) → Dict Value → Result NodeError (Dict Value)
validate_upstreams name [] inputs = ok inputs
validate_upstreams name (u ∷ us) inputs =
    let rest = validate_upstreams name us inputs in
    if has_key u inputs then rest else err (missing_input name u)

-- `{param: inputs[key]}`
abbrev argument : (param key : String) → Dict Value → Dict Value
argument param key inputs = elim (lookup key inputs) [ none ↦ [] | some v ↦ (param, v) ∷ [] ]

abbrev fields : List String → Dict String → Dict Value
fields [] d = []
fields (p ∷ ps) d =
    let rest = fields ps d in elim (lookup p d) [ none ↦ rest | some s ↦ insert p (atom s) rest ]

abbrev only_argument : List String → Value → Dict Value
only_argument (p ∷ []) v = (p, v) ∷ []
only_argument ps v = []

abbrev or_only_argument : List String → Value → Dict Value → Dict Value
or_only_argument ps v [] = only_argument ps v
or_only_argument ps v (a ∷ args) = a ∷ args

-- A dict gives the parameters by their names.
abbrev spread : List String → Value → Dict Value
spread ps (atom s) = only_argument ps (atom s)
spread ps (table d) = or_only_argument ps (table d) (fields ps d)

abbrev first_input : List String → Dict Value → Dict Value
first_input ps [] = []
first_input ps ((k, v) ∷ inputs) = if k == "" then [] else spread ps v

abbrev first_value : Dict Value → Dict Value
first_value [] = []
first_value ((k, v) ∷ inputs) = ("value", v) ∷ []

abbrev named_argument : (name : String) → List String → Dict Value → Dict Value
named_argument name (p ∷ []) inputs =
    if has_key name inputs then argument p name inputs else first_input (p ∷ []) inputs
named_argument name ps inputs = first_input ps inputs

unfoldable pub build_args_no_upstream :
    (name : String) → Dict Value → (param_names : List String) → Dict Value
build_args_no_upstream name inputs ps =
    if has_key "value" inputs && contains "value" ps
    then argument "value" "value" inputs
    else if contains "value" ps && nat_eq (length inputs) 1
    then first_value inputs
    else if has_key "upstream" inputs && contains "value" ps
    then argument "value" "upstream" inputs
    else named_argument name ps inputs

abbrev single_argument : (upstream : String) → List String → Value → Dict Value
single_argument upstream (p ∷ []) v = (p, v) ∷ []
single_argument upstream ps v = (upstream, v) ∷ []

unfoldable pub build_args_single_upstream :
    (upstream : String) → Dict Value → (param_names : List String) → Result NodeError (Dict Value)
build_args_single_upstream upstream inputs ps = elim (lookup upstream inputs) [
  | none ↦ err key_error
  | some v ↦ ok (single_argument upstream ps v)
]

-- Every upstream under its own name.
unfoldable pub args_by_name :
    (upstreams : List String) → Dict Value → Dict Value → Result NodeError (Dict Value)
args_by_name [] inputs args = ok args
args_by_name (u ∷ us) inputs args = elim (lookup u inputs) [
  | none ↦ err key_error
  | some v ↦ args_by_name us inputs (insert u v args)
]

-- The upstreams go to the parameters by their place; what is over is left out.
unfoldable pub args_by_place :
    (upstreams param_names : List String) → Dict Value → Dict Value → Result NodeError (Dict Value)
args_by_place [] ps inputs args = ok args
args_by_place (u ∷ us) [] inputs args = ok args
args_by_place (u ∷ us) (p ∷ ps) inputs args = elim (lookup u inputs) [
  | none ↦ err key_error
  | some v ↦ args_by_place us ps inputs (insert p v args)
]

abbrev build_args_multi_upstream :
    List String → Dict Value → Function → Result NodeError (Dict Value)
build_args_multi_upstream upstreams inputs fn =
    if fn.has_kwargs
    then args_by_name upstreams inputs []
    else args_by_place upstreams fn.param_names inputs []

unfoldable pub build_fn_args :
    (name : String) → List String → Function → Dict Value → Result NodeError (Dict Value)
build_fn_args name [] fn [] = build_args_multi_upstream [] [] fn
build_fn_args name [] fn (i ∷ is) = ok (build_args_no_upstream name (i ∷ is) fn.param_names)
build_fn_args name (u ∷ []) fn inputs = build_args_single_upstream u inputs fn.param_names
build_fn_args name (u ∷ w ∷ us) fn inputs = build_args_multi_upstream (u ∷ w ∷ us) inputs fn

-- The keyword arguments of the node fill in what is missing.
unfoldable pub add_kwargs : (kwargs : Dict Value) → Dict Value → Dict Value
add_kwargs [] args = args
add_kwargs ((k, v) ∷ kwargs) args =
    add_kwargs kwargs (if has_key k args then args else insert k v args)

abbrev pub call_function : Function → Dict Value → Result NodeError Value
call_function fn args = elim (fn.call args) [ ok v ↦ ok v | err e ↦ err (raised e) ]

unfoldable pub execute :
    ProcessingNode
    → (kwargs : Dict Value) → Function
    → (inputs : Dict Value) → Result NodeError Value
execute node kwargs fn inputs = validate_upstreams node.name node.upstreams inputs >>= λ given.
    build_fn_args node.name node.upstreams fn given >>= λ args.
    call_function fn (add_kwargs kwargs args)
