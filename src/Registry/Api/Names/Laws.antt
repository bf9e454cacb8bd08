-- ===== src/Registry/Api/Names/Laws.antt =====
-- Names in snake case are the fixed points of `camel_to_snake`.
use Prim.Native.Char.{Char, code}
use Prim.Native.String.{String, [], ◌∷◌}
use qmtl.Base.{Bool, true, false, ◌&&◌, ◌||◌, not, nat_eq, ◌≡◌, refl, ◌⊎◌, inl, inr, arith}
use qmtl.Registry.Api.Names.{
  capitals, small_letters, one_of, lower_char, lower, split_words, split_capitals, camel_to_snake,
}

abbrev same_length : String → String → Bool
same_length [] [] = true
same_length (u ∷ us) (l ∷ ls) = same_length us ls
same_length [] (l ∷ ls) = false
same_length (u ∷ us) [] = false

-- No character of the second text is one of the first.
abbrev disjoint : String → String → Bool
disjoint us [] = true
disjoint us (l ∷ ls) = not (one_of us l) && disjoint us ls

one_of-code :
    (us : String) (c d : Char) → nat_eq (code c) (code d) ≡ true → one_of us c ≡ one_of us d
unfolding one_of
one_of-code [] c d h = refl
one_of-code (u ∷ us) c d h = ground (arith, one_of-code us c d)

disjoint_lem :
    (us ls : String) (c : Char) → disjoint us ls ≡ true → one_of ls c ≡ true → one_of us c ≡ false
unfolding one_of
disjoint_lem us [] c h k = cc
disjoint_lem us (l ∷ ls) c h k = ground (arith, disjoint_lem us ls c, one_of-code us l c)

-- A character that is translated comes from the second text, and any other stays.
lower_char_lem :
    (us ls : String) (c : Char)
    → same_length us ls ≡ true
    → (one_of ls (lower_char us ls c) ≡ true) ⊎ ((one_of us c ≡ false) × (lower_char us ls c ≡ c))
unfolding one_of lower_char
lower_char_lem [] [] c h = inr (refl, refl)
lower_char_lem (u ∷ us) (l ∷ ls) c h = ground (arith, lower_char_lem us ls c)
lower_char_lem [] (l ∷ ls) c h = cc
lower_char_lem (u ∷ us) [] c h = cc

lower_char-capitals : (c : Char) → one_of capitals (lower_char capitals small_letters c) ≡ false
lower_char-capitals c = elim (lower_char_lem capitals small_letters c refl) [
  | inl small ↦ disjoint_lem capitals small_letters _ (unfold one_of in refl) small
  | inr (other, same) ↦ rw same other
]

-- The text has a capital.
unfoldable pub has_capital : String → Bool
has_capital [] = false
has_capital (c ∷ s) = one_of capitals c || has_capital s

lower-no_capital : (s : String) → has_capital (lower s) ≡ false
unfolding has_capital lower
lower-no_capital [] = refl
lower-no_capital (c ∷ s) = ground (arith, lower_char-capitals c, lower-no_capital s)

lower_char-other : (us ls : String) (c : Char) → one_of us c ≡ false → lower_char us ls c ≡ c
unfolding one_of lower_char
lower_char-other [] ls c h = refl
lower_char-other (u ∷ us) (l ∷ ls) c h = ground (arith, lower_char-other us ls c)
lower_char-other (u ∷ us) [] c h = refl

lower-same : (s : String) → has_capital s ≡ false → lower s ≡ s
unfolding has_capital lower
lower-same [] h = refl
lower-same (c ∷ s) h = ground (arith, lower_char-other capitals small_letters c, lower-same s)

split_words-same : (b : Bool) (s : String) → has_capital s ≡ false → split_words b s ≡ s
unfolding has_capital split_words
split_words-same b [] h = refl
split_words-same b (c ∷ []) h = refl
split_words-same b (c ∷ d ∷ []) h = refl
split_words-same b (c ∷ d ∷ e ∷ s) h =
    ground (arith, split_words-same true (d ∷ e ∷ s), split_words-same false (d ∷ e ∷ s))

split_capitals-same : (s : String) → has_capital s ≡ false → split_capitals s ≡ s
unfolding has_capital split_capitals
split_capitals-same [] h = refl
split_capitals-same (c ∷ []) h = refl
split_capitals-same (c ∷ d ∷ s) h = ground (arith, split_capitals-same (d ∷ s))

-- A name without capitals stays as it is.
camel_to_snake-same : (s : String) → has_capital s ≡ false → camel_to_snake s ≡ s
unfolding camel_to_snake
camel_to_snake-same s h = rw (split_words-same false s h, split_capitals-same s h) (lower-same s h)

no_capital : (s : String) → has_capital (camel_to_snake s) ≡ false
unfolding camel_to_snake
no_capital s = lower-no_capital _

-- The name that results has no capital letter, converting it again changes nothing, and a name
-- without capitals is left as it is.
pub camel_to_snake_lem :
    (s : String)
    → (has_capital (camel_to_snake s) ≡ false)
      × (camel_to_snake (camel_to_snake s) ≡ camel_to_snake s)
      × (has_capital s ≡ false → camel_to_snake s ≡ s)
camel_to_snake_lem s =
    let plain = no_capital s in
    (plain, camel_to_snake-same (camel_to_snake s) plain, camel_to_snake-same s)
