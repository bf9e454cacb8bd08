-- ===== src/Sdk/State/Kept.antt =====
-- What saves leave of a history, and when it is gone.
use Prim.Native.String.{◌++◌}
use text.Mathlib.TextLemmas.{append_cancel_left, append_cancel_right}
use qmtl.Base.{
  ◌+◌, if◌then◌else◌, ℕ, zero, suc, String, List, [], ◌∷◌, ◌≡◌, refl, ap, true, false, ◌&&◌, Option,
  none, some, ◌==◌, keep_if, map, arith, eq_iff, Bool-cases, inl, inr,
}
use qmtl.Sdk.Value.{Value}
use qmtl.Sdk.State.{
  is_over, Stop, index, last, minus_one, Entry, Json, take, up_to, get_storage_key, in_window,
  is_falsy,
}

-- One call of `save_history` for the node and the interval at hand.
pub record Save : Type 0 where
  pub now : ℕ
  pub value : Value
  pub max_items : ℕ
  pub ttl : Option ℕ

abbrev pub entry : Save → Entry
entry v = record { timestamp = v.now; value = v.value }

-- What there is of the history, the newest first, and when it will be gone.
pub record Kept : Type 0 where
  pub entries : List Entry
  pub until : Option ℕ

abbrev pub nothing_kept : Kept
nothing_kept = record { entries = []; until = none }

abbrev pub at_time : (now : ℕ) → Kept → Kept
at_time now k = if is_over now k.until then nothing_kept else k

-- A lifetime of 0 is none, and without one the history keeps the one that it has.
abbrev pub renewed : (now : ℕ) → (ttl : Option ℕ) → Option ℕ → Option ℕ
renewed now none t = t
renewed now (some zero) t = t
renewed now (some (suc ttl)) t = some (now + suc ttl)

-- A save is cut to the maximum that it gives; a maximum of 0 cuts nothing.
abbrev pub saved : Save → Kept → Kept
saved v k = record {
  entries = up_to (minus_one v.max_items) (entry v ∷ k.entries);
  until = renewed v.now v.ttl k.until;
}

abbrev pub kept : List Save → Kept → Kept
kept [] k = k
kept (v ∷ vs) k = kept vs (saved v (at_time v.now k))

-- The entries come back from their texts.
abbrev pub AllRead : Json → List Entry → Type 0
AllRead json [] = Unit
AllRead json (e ∷ es) = (json.loads (json.dumps e) ≡ some e) × AllRead json es

pub take-AllRead :
    (json : Json) (n : ℕ) (es : List Entry) → AllRead json es → AllRead json (take n es)
take-AllRead json zero es r = tt
take-AllRead json (suc n) [] r = tt
take-AllRead json (suc n) (e ∷ es) r = (r.0, take-AllRead json n es r.1)

pub up_to-AllRead :
    (json : Json) (t : Stop) (es : List Entry) → AllRead json es → AllRead json (up_to t es)
up_to-AllRead json last es r = r
up_to-AllRead json (index n) es r = take-AllRead json (suc n) es r

pub at_time-AllRead :
    (json : Json) (now : ℕ) (k : Kept)
    → AllRead json k.entries
    → AllRead json (at_time now k).entries
at_time-AllRead json now k r =
    elim (is_over now k.until) as (λ b. AllRead json (if b then nothing_kept else k).entries) [
      | true ↦ tt
      | false ↦ r
    ]

pub kept-AllRead :
    (json : Json) (vs : List Save) (k : Kept)
    → AllRead json (map entry vs)
    → AllRead json k.entries
    → AllRead json (kept vs k).entries
kept-AllRead json [] k rs r = r
kept-AllRead json (v ∷ vs) k rs r = kept-AllRead json vs (saved v (at_time v.now k)) rs.1 (
    up_to-AllRead json (minus_one v.max_items) (entry v ∷ (at_time v.now k).entries)
      (rs.0, at_time-AllRead json v.now k r))

pub up_to-cons {ℓ} :
    {A : Type ℓ} (m : ℕ) (x : A) (xs : List A)
    → (ys : List A) × (up_to (minus_one m) (x ∷ xs) ≡ x ∷ ys)
up_to-cons zero x xs = (xs, refl)
up_to-cons (suc n) x xs = (take n xs, refl)

pub history_key_apart :
    (node_id interval : String)
    → (get_storage_key node_id interval "meta" == get_storage_key node_id interval "history")
      ≡ false
history_key_apart n i =
    elim (Bool-cases (get_storage_key n i "meta" == get_storage_key n i "history")) [
      | inr apart ↦ apart
      | inl same ↦
          let whole =
            (eq_iff (get_storage_key n i "meta") (get_storage_key n i "history")).0 same in
          let names = append_cancel_right "meta" "history" (":" ++ i) (
            append_cancel_left ":" _ _
              (append_cancel_left n _ _ (append_cancel_left "node:" _ _ whole))) in
          absurd (ground (arith, names, eq_iff "meta" "history"))
    ]

pub take-map :
    {A B : Type 0} (f : A → B) (n : ℕ) (xs : List A) → take n (map f xs) ≡ map f (take n xs)
take-map f zero xs = refl
take-map f (suc n) [] = refl
take-map f (suc n) (x ∷ xs) = ap (λ r. f x ∷ r) (take-map f n xs)

pub up_to-map :
    {A B : Type 0} (f : A → B) (t : Stop) (xs : List A) → up_to t (map f xs) ≡ map f (up_to t xs)
up_to-map f last xs = refl
up_to-map f (index n) xs = take-map f (suc n) xs

pub keep_all :
    (start_ts end_ts : Option ℕ) (es : List Entry)
    → (is_falsy start_ts && is_falsy end_ts) ≡ true
    → keep_if (in_window start_ts end_ts) es ≡ es
keep_all start_ts end_ts [] h = refl
keep_all none none (e ∷ es) h = ap (λ r. e ∷ r) (keep_all none none es h)
keep_all none (some zero) (e ∷ es) h = ap (λ r. e ∷ r) (keep_all none (some zero) es h)
keep_all (some zero) none (e ∷ es) h = ap (λ r. e ∷ r) (keep_all (some zero) none es h)
keep_all (some zero) (some zero) (e ∷ es) h =
    ap (λ r. e ∷ r) (keep_all (some zero) (some zero) es h)
keep_all none (some (suc n)) (e ∷ es) h = absurd (ground arith)
keep_all (some zero) (some (suc n)) (e ∷ es) h = absurd (ground arith)
keep_all (some (suc n)) t (e ∷ es) h = absurd (ground arith)
