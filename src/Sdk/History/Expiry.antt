-- ===== src/Sdk/History/Expiry.antt =====
-- What `get_interval_data` returns after a save.
use qmtl.Base.{
  ℕ, zero, suc, ◌≤◌, String, List, [], ◌∷◌, ◌≡◌, refl, ◌∙◌, ap, Option, some, keep_if, length, Dict,
  lookup, lookup-insert, insert, or_else, arith, eq_refl, Option-cases, if_true,
}
use qmtl.Sdk.Value.{Value}
use qmtl.Sdk.History.{
  Item, Store, take, is_valid, record_item, expiry, interval_history, recorded, get_interval_data,
  save_interval_data,
}

take-all : (n : ℕ) (items : List Item) → length items ≤ n → take n items ≡ items
take-all zero [] h = refl
take-all zero (x ∷ xs) h = absurd (omega arith)
take-all (suc n) [] h = refl
take-all (suc n) (x ∷ xs) h = rw (take-all n xs (omega arith))

record_item_lem :
    (max : ℕ) (item : Item) (items : List Item)
    → record_item max item items ≡ take max (item ∷ items)
record_item_lem max item items = ground (arith, take-all max (item ∷ items))

-- The item that a save stores.
abbrev pub saved : (now : ℕ) → (value : Value) → (ttl : Option ℕ) → Item
saved now value ttl = record { timestamp = now; value = value; expires_at = expiry now ttl }

lookup_inserted {ℓ} :
    {V : Type ℓ} (k : String) (v : V) (d : Dict V) → lookup k (insert k v d) ≡ some v
lookup_inserted k v d = lookup-insert k k v d ∙ if_true _ _ _ (eq_refl k)

interval_history-inserted :
    (n i : String) (intervals : Dict (List Item)) (s : Store) (d : Dict (Dict (List Item)))
    → s.history ≡ insert n intervals d
    → interval_history n i s ≡ lookup i intervals
interval_history-inserted n i intervals s d h = ground (arith, lookup_inserted n intervals d)

earlier :
    (n i : String) (s : Store)
    → or_else [] (lookup i (or_else [] (lookup n s.history))) ≡ or_else [] (interval_history n i s)
unfolding lookup
earlier n i s = ground (arith, Option-cases (lookup n s.history))

interval_history-save :
    (now : ℕ) (n i : String) (v : Value) (max : ℕ) (ttl : Option ℕ) (s : Store)
    → interval_history n i (save_interval_data now n i v max ttl s)
      ≡ some (take max (saved now v ttl ∷ or_else [] (interval_history n i s)))
unfolding save_interval_data
interval_history-save now n i v max ttl s =
    interval_history-inserted n i _ (save_interval_data now n i v max ttl s) s.history refl
    ∙ lookup_inserted i _ (or_else [] (lookup n s.history))
    ∙ ap some
        (record_item_lem max _ _ ∙ ap (λ items. take max (saved now v ttl ∷ items)) (earlier n i s))

recorded-stored :
    (n i : String) (s : Store) (items : List Item)
    → interval_history n i s ≡ some items
    → recorded n i s ≡ items
recorded-stored n i s items h = ground arith

-- A read just after a save, of the same node and interval, gives the newest valid items: the new one
-- before those in the history, cut first at the save's maximum and then, when the expired ones are
-- out, at the read's limit.
pub get_interval_data-save_interval_data :
    (now later : ℕ) (n i : String) (v : Value) (max limit : ℕ) (ttl : Option ℕ) (s : Store)
    → get_interval_data later n i limit (save_interval_data now n i v max ttl s)
      ≡ take limit (
          keep_if
            (is_valid later)
            (take max (saved now v ttl ∷ or_else [] (interval_history n i s))))
unfolding get_interval_data
get_interval_data-save_interval_data now later n i v max limit ttl s =
    ap (λ items. take limit (keep_if (is_valid later) items))
      (recorded-stored n i (save_interval_data now n i v max ttl s) _
        (interval_history-save now n i v max ttl s))
