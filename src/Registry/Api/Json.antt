-- ===== src/Registry/Api/Json.antt =====
-- The JSON values of a request's body, as Python's json module gives them.
use qmtl.Base.{ℕ, String, Bool, true, false, not, Option, none, some, ◌==◌, if◌then◌else◌, nat_eq}

mutual
  pub data Json : Type 0 where
    null : Json
    boolean : Bool → Json
    number : ℕ → Json
    text : String → Json
    array : Items → Json
    object : Fields → Json

  pub data Items : Type 0 where
    end : Items
    item : Json → Items → Items

  -- A dict, in insertion order
  pub data Fields : Type 0 where
    empty : Fields
    field : String → Json → Fields → Fields

-- `bool(value)`
abbrev pub is_truthy : Json → Bool
is_truthy null = false
is_truthy (boolean b) = b
is_truthy (number n) = not (nat_eq n 0)
is_truthy (text s) = not (s == "")
is_truthy (array end) = false
is_truthy (array (item v vs)) = true
is_truthy (object empty) = false
is_truthy (object (field k v fs)) = true

-- `d.get(k)` and `d[k] = v`
unfoldable pub get : String → Fields → Option Json
get k empty = none
get k (field j v fs) = let rest = get k fs in if j == k then some v else rest

unfoldable pub set : String → Json → Fields → Fields
set k v empty = field k v empty
set k v (field j w fs) = let rest = set k v fs in if j == k then field j v fs else field j w rest

-- `{f(k): v for k, v in d.items()}`, after what is built already
unfoldable pub rename_into : (String → String) → Fields → Fields → Fields
rename_into f built empty = built
rename_into f built (field k v fs) = rename_into f (set (f k) v built) fs

unfoldable pub rename_keys : (String → String) → Fields → Fields
rename_keys f fs = rename_into f empty fs
