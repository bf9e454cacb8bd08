-- ===== src/Registry/Api/Paths.antt =====
-- The path of a request, as it is written and as its parts between the slashes.
use Prim.Native.Char.{Char, code}
use Prim.Native.String.{String, ◌++◌}
use mathlib.Core.List
use text.Mathlib.TextLemmas.{nil-append, cons-append}
use qmtl.Base.{
  ℕ, List, [], ◌∷◌, Bool, true, false, not, ◌&&◌, ◌||◌, leb, nat_eq, if◌then◌else◌, ◌≡◌, refl, ap,
  ◌∙◌, arith, ◌==◌, if_true, if_false, Bool-cases, inl, inr, sym,
}

abbrev is_slash : Char → Bool
is_slash c = nat_eq (code c) b'/'

-- The text before the first slash, and the texts after each
abbrev pub put : Char → String × List String → String × List String
put c (p, ps) = if is_slash c then ("", p ∷ ps) else (String.◌∷◌ c p, ps)

unfoldable pub split : String → String × List String
split String.[] = ("", [])
split (String.◌∷◌ c cs) = put c (split cs)

-- The parts of a path, which begins with a slash
unfoldable pub parts : String → List String
parts path = (split path).1

-- Letters, digits, `-` and `_`: what stands in a URL as it is.
abbrev is_word_char : ℕ → Bool
is_word_char n =
    (leb b'a' n && leb n b'z')
    || ((leb b'A' n && leb n b'Z')
        || ((leb b'0' n && leb n b'9') || (nat_eq n b'_' || nat_eq n b'-')))

unfoldable pub is_word : String → Bool
is_word String.[] = true
is_word (String.◌∷◌ c cs) = is_word_char (code c) && is_word cs

-- An id that is one part of a path
abbrev pub is_plain : String → Bool
is_plain id = is_word id && not (id == "")

word_char-slash : (n : ℕ) → is_word_char n ≡ true → nat_eq n b'/' ≡ false
word_char-slash n h = ground arith

pub split-word : (id : String) → is_word id ≡ true → split id ≡ (id, [])
unfolding split is_word
split-word String.[] h = refl
split-word (String.◌∷◌ c cs) h =
    ap (put c) (split-word cs (ground arith))
    ∙ if_false _ _ _ (word_char-slash (code c) (ground arith))

-- A slash begins a new part.
abbrev pub joined : String × List String → String × List String → String × List String
joined (p, ps) (q, qs) = (p, List.◌++◌ ps (q ∷ qs))

put-joined : (c : Char) (x y : String × List String) → put c (joined x y) ≡ joined (put c x) y
put-joined c (p, ps) (q, qs) = elim (Bool-cases (is_slash c)) [
  | inl slash ↦ if_true _ _ _ slash ∙ ap (λ x. joined x (q, qs)) (sym (if_true _ _ _ slash))
  | inr other ↦ if_false _ _ _ other ∙ ap (λ x. joined x (q, qs)) (sym (if_false _ _ _ other))
]

pub split-slash : (p rest : String) → split (p ++ ("/" ++ rest)) ≡ joined (split p) (split rest)
unfolding split
split-slash String.[] rest =
    ap split (nil-append ("/" ++ rest))
    ∙ ap split (cons-append "/" "" rest ∙ ap (String.◌∷◌ "/") (nil-append rest))
split-slash (String.◌∷◌ c cs) rest =
    ap split (cons-append c cs ("/" ++ rest))
    ∙ ap (put c) (split-slash cs rest)
    ∙ put-joined c (split cs) (split rest)

-- A plain id below a path is one more part of it.
pub parts-id :
    (path id : String)
    → is_plain id ≡ true
    → parts (path ++ ("/" ++ id)) ≡ List.◌++◌ (parts path) (id ∷ [])
unfolding parts
parts-id path id plain =
    ap (λ x. x.1)
      (split-slash path id ∙ ap (joined (split path)) (split-word id (ground (arith, plain))))

-- So are a plain id and what comes after its slash.
pub parts-id_below :
    (path id below : String)
    → is_plain id ≡ true
    → parts (path ++ ("/" ++ (id ++ ("/" ++ below))))
      ≡ List.◌++◌ (parts path) (id ∷ (split below).0 ∷ (split below).1)
unfolding parts
parts-id_below path id below plain =
    ap (λ x. x.1)
      (split-slash path (id ++ ("/" ++ below))
        ∙ ap (joined (split path)) (
            split-slash id below
            ∙ ap (λ x. joined x (split below)) (split-word id (ground (arith, plain)))))
