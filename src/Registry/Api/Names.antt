-- ===== src/Registry/Api/Names.antt =====
-- dag_manager/registry/api.py, `camel_to_snake`: its two regular expressions as loops over the characters.
-- `lower()` is modelled on the letters A to Z.
pub mod Laws
use Prim.Native.Char.{Char, code}
use Prim.Native.String.{String, [], ◌∷◌}
use qmtl.Base.{Bool, true, false, ◌&&◌, ◌||◌, not, nat_eq, if◌then◌else◌}

abbrev pub capitals : String
capitals = "ABCDEFGHIJKLMNOPQRSTUVWXYZ"

abbrev pub small_letters : String
small_letters = "abcdefghijklmnopqrstuvwxyz"

abbrev pub digits : String
digits = "0123456789"

-- `[...]` of a regular expression: one of the characters listed
unfoldable pub one_of : String → Char → Bool
one_of [] c = false
one_of (d ∷ s) c = nat_eq (code d) (code c) || one_of s c

unfoldable pub lower_char : String → String → Char → Char
lower_char (u ∷ us) (l ∷ ls) c =
    let rest = lower_char us ls c in if nat_eq (code u) (code c) then l else rest
lower_char [] ls c = c
lower_char (u ∷ us) [] c = c

unfoldable pub lower : String → String
lower [] = []
lower (c ∷ s) = lower_char capitals small_letters c ∷ lower s

-- `(.)([A-Z][a-z]+)` becomes `\1_\2`. A match takes the small letters that follow, so `inside` says
-- that the last one was a match and its small letters are not all read.
unfoldable pub split_words : (inside : Bool) → String → String
split_words inside [] = []
split_words inside (c ∷ []) = c ∷ []
split_words inside (c ∷ d ∷ []) = c ∷ d ∷ []
split_words inside (c ∷ d ∷ e ∷ s) =
    let in_word = c ∷ split_words true (d ∷ e ∷ s) in
    let matched = c ∷ "_" ∷ d ∷ split_words true (e ∷ s) in
    let passed = c ∷ split_words false (d ∷ e ∷ s) in
    if inside && one_of small_letters c
    then in_word
    else if not (nat_eq (code c) 10) && (one_of capitals d && one_of small_letters e)
    then matched
    else passed

-- `([a-z0-9])([A-Z])` becomes `\1_\2`; a match ends with a capital, which cannot begin one.
unfoldable pub split_capitals : String → String
split_capitals [] = []
split_capitals (c ∷ []) = c ∷ []
split_capitals (c ∷ d ∷ s) =
    let rest = split_capitals (d ∷ s) in
    if (one_of small_letters c || one_of digits c) && one_of capitals d
    then c ∷ "_" ∷ rest
    else c ∷ rest

unfoldable pub camel_to_snake : String → String
camel_to_snake name = lower (split_capitals (split_words false name))
