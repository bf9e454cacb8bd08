-- ===== src/Registry/Callbacks.antt =====
-- registry/services/node/callback.py: the callbacks that are registered for a node. A type of callback is
-- named by its label in the protobuf enumeration.
pub mod Refines
mod Examples
use Prim.Native.String
use qmtl.Base.{
  String, List, [], ◌∷◌, ◌++◌, Bool, true, false, not, Option, none, some, ◌==◌, if◌then◌else◌,
  nat_eq, keep_if, length, Dict, lookup, insert, or_else,
}

pub record Callback : Type 0 where
  pub url : String
  pub metadata : Dict String

pub record Response : Type 0 where
  pub success : Bool
  pub message : String

-- `{node_id: {callback_type: [callback_info, …]}}`
abbrev pub Callbacks : Type 0
Callbacks = Dict (Dict (List Callback))

-- `_callbacks.get(node_id, {}).get(callback_type, [])`
abbrev pub registered : (node_id callback_type : String) → Callbacks → List Callback
registered node_id callback_type s =
    or_else [] (lookup callback_type (or_else [] (lookup node_id s)))

unfoldable pub register_callback :
    (node_id callback_type : String) → Callback → Callbacks → Response × Callbacks
register_callback node_id callback_type cb s =
    let node_cbs = or_else [] (lookup node_id s) in
    let cb_list = or_else [] (lookup callback_type node_cbs) in
    (
      record { success = true; message = "Callback registered." },
      insert node_id (insert callback_type (cb_list ++ cb ∷ []) node_cbs) s,
    )

abbrev pub others : (url : String) → List Callback → List Callback
others url cbs = keep_if (λ cb. not (cb.url == url)) cbs

-- The dict of a node that has none is a new one, which is not stored.
unfoldable pub unregister_callback :
    (node_id callback_type url : String) → Callbacks → Response × Callbacks
unregister_callback node_id callback_type url s =
    let before = registered node_id callback_type s in
    let after = others url before in
    (
      (if nat_eq (length before) (length after)
          then record { success = false; message = "Not found." }
          else record { success = true; message = "Callback unregistered." }),
      elim (lookup node_id s) [
        | none ↦ s
        | some node_cbs ↦ insert node_id (insert callback_type after node_cbs) s
      ],
    )

-- `label` is the name of a type in lower case.
abbrev pub relabel :
    (label : String → String) → Dict (List Callback) → Dict (List Callback) → Dict (List Callback)
relabel label [] result = result
relabel label ((k, cbs) ∷ d) result = relabel label d (insert (label k) cbs result)

unfoldable pub list_callbacks :
    (label : String → String) → (node_id : String) → Callbacks → Dict (List Callback)
list_callbacks label node_id s = relabel label (or_else [] (lookup node_id s)) []

abbrev pub triggered : List Callback → List Response
triggered [] = []
triggered (cb ∷ cbs) =
    record {
      success = true;
      message = String.◌++◌ "Callback to " (String.◌++◌ cb.url " triggered.");
    }
    ∷ triggered cbs

unfoldable pub trigger_callbacks : (node_id callback_type : String) → Callbacks → List Response
trigger_callbacks node_id callback_type s = triggered (registered node_id callback_type s)
