-- ===== src/Sdk/State/Window.antt =====
-- What is read of a node's history after a sequence of saves.
use qmtl.Base.{
  subst, ℕ, zero, suc, String, List, [], ◌∷◌, ◌≡◌, refl, ◌∙◌, sym, ap, ◌&&◌, Option, none, some,
  if_true, if_false, keep_if, map, arith, eq_refl, Bool-cases, inl, inr,
}
use qmtl.Sdk.State.{
  is_over, index, last, minus_one, Entry, Json, take, up_to, Redis, IsLawful, get_storage_key,
  in_window, is_falsy, expire_if, save_history, load_items, get_history,
}
use qmtl.Sdk.State.Kept.{
  Save, entry, Kept, nothing_kept, at_time, renewed, saved, kept, AllRead, take-AllRead,
  at_time-AllRead, kept-AllRead, up_to-cons, history_key_apart, take-map, up_to-map, keep_all,
}

module _ (R : Redis) (lawful : IsLawful R) (json : Json) (node_id interval : String) where
  abbrev key : String
  key = get_storage_key node_id interval "history"

  abbrev pub history : R.State → List String
  history s = R.lrange key last s

  abbrev pub save_all : List Save → R.State → R.State
  save_all [] s = s
  save_all (v ∷ vs) s =
      save_all vs (save_history R json v.now node_id interval v.value v.max_items v.ttl s).1

  -- The server's list is what is kept.
  record Holds (k : Kept) (s : R.State) : Type 0 where
    listed : history s ≡ map json.dumps k.entries
    due : R.deadline key s ≡ k.until

  tick-Holds : (now : ℕ) (k : Kept) (s : R.State) → Holds k s → Holds (at_time now k) (R.tick now s)
  tick-Holds now k s h =
      let same = ap (is_over now) h.due in
      elim (Bool-cases (is_over now k.until)) [
        | inl over ↦ record {
          listed =
              lawful.lrange-tick now key s
              ∙ if_true _ _ _ (same ∙ over)
              ∙ sym (ap (λ (e : Kept). map json.dumps e.entries) (if_true _ _ _ over));
          due =
              lawful.deadline-tick now key s
              ∙ if_true _ _ _ (same ∙ over)
              ∙ sym (ap (λ (e : Kept). e.until) (if_true _ _ _ over));
        }
        | inr living ↦ record {
          listed =
              lawful.lrange-tick now key s
              ∙ if_false _ _ _ (same ∙ living)
              ∙ h.listed
              ∙ sym (ap (λ (e : Kept). map json.dumps e.entries) (if_false _ _ _ living));
          due =
              lawful.deadline-tick now key s
              ∙ if_false _ _ _ (same ∙ living)
              ∙ h.due
              ∙ sym (ap (λ (e : Kept). e.until) (if_false _ _ _ living));
        }
      ]

  expire_if-Holds :
      (now : ℕ) (ttl : Option ℕ) (e : Entry) (es : List Entry) (t : Option ℕ) (s : R.State)
      → Holds (record { entries = e ∷ es; until = t }) s
      → Holds
          (record { entries = e ∷ es; until = renewed now ttl t })
          (expire_if R json now key ttl s)
  expire_if-Holds now none e es t s h = h
  expire_if-Holds now (some zero) e es t s h = h
  expire_if-Holds now (some (suc n)) e es t s h = record {
    listed = lawful.lrange-expire now key key (suc n) s (omega arith) ∙ h.listed;
    due =
        lawful.deadline-expire now key (json.dumps e) (map json.dumps es) (suc n) s (omega arith)
          h.listed;
  }

  push-Holds :
      (v : Save) (k : Kept) (s : R.State)
      → Holds k s
      → Holds
          (record (saved v k) { until = k.until })
          (R.ltrim key (minus_one v.max_items) (R.lpush key (json.dumps (entry v)) s))
  push-Holds v k s h =
      let t = minus_one v.max_items in
      let pushed = R.lpush key (json.dumps (entry v)) s in
      let cut : history (R.ltrim key t pushed) ≡ up_to t (json.dumps (entry v) ∷ history s) =
        lawful.lrange-ltrim key key t pushed
        ∙ if_true _ _ _ (eq_refl key)
        ∙ ap (up_to t)
            (lawful.lrange-lpush key (json.dumps (entry v)) key s ∙ if_true _ _ _ (eq_refl key)) in
      let (rest, full) = up_to-cons v.max_items (json.dumps (entry v)) (history s) in
      record {
        listed =
            cut
            ∙ ap (λ l. up_to t (json.dumps (entry v) ∷ l)) h.listed
            ∙ up_to-map json.dumps t (entry v ∷ k.entries);
        due =
            lawful.deadline-ltrim key key (json.dumps (entry v)) rest t pushed (cut ∙ full)
            ∙ lawful.deadline-lpush key (json.dumps (entry v)) key s
            ∙ h.due;
      }

  set-Holds :
      (k : Kept) (text : String) (ttl : Option ℕ) (s : R.State)
      → Holds k s
      → Holds k (R.set (get_storage_key node_id interval "meta") text ttl s)
  set-Holds k text ttl s h = record {
    listed =
        lawful.lrange-set (get_storage_key node_id interval "meta") text key ttl s
          (history_key_apart node_id interval)
        ∙ h.listed;
    due =
        lawful.deadline-set (get_storage_key node_id interval "meta") text key ttl s
          (history_key_apart node_id interval)
        ∙ h.due;
  }

  save-Holds :
      (v : Save) (k : Kept) (s : R.State)
      → Holds k s
      → Holds
          (saved v (at_time v.now k))
          (save_history R json v.now node_id interval v.value v.max_items v.ttl s).1
  unfolding save_history
  save-Holds v k s h =
      let k' = at_time v.now k in
      let s' = R.tick v.now s in
      let t = minus_one v.max_items in
      let cut = R.ltrim key t (R.lpush key (json.dumps (entry v)) s') in
      let (rest, full) = up_to-cons v.max_items (entry v) k'.entries in
      let pushed =
        subst (λ es. Holds (record { entries = es; until = k'.until }) cut) full
          (push-Holds v k' s' (tick-Holds v.now k s h)) in
      set-Holds (saved v k') _ v.ttl (expire_if R json v.now key v.ttl cut) (
        subst
          (λ es.
            Holds (record { entries = es; until = renewed v.now v.ttl k'.until })
              (expire_if R json v.now key v.ttl cut))
          (sym full) (expire_if-Holds v.now v.ttl (entry v) rest k'.until cut pushed))

  save_all-Holds :
      (vs : List Save) (k : Kept) (s : R.State) → Holds k s → Holds (kept vs k) (save_all vs s)
  save_all-Holds [] k s h = h
  save_all-Holds (v ∷ vs) k s h =
      save_all-Holds vs (saved v (at_time v.now k))
        (save_history R json v.now node_id interval v.value v.max_items v.ttl s).1
        (save-Holds v k s h)

  load_items-map : (es : List Entry) → AllRead json es → load_items R json (map json.dumps es) ≡ es
  unfolding load_items
  load_items-map [] r = refl
  load_items-map (e ∷ es) r = ground (arith, r.0, load_items-map es r.1)

  -- On a lawful server, where there is no history before and the saved entries come back from their texts, a
  -- read at any time after any saves, each at its own time, returns the entries that are kept then: the newest
  -- first, those in the window only, and at most the number asked for, which is not 0. Kept are at most as many
  -- as the saves allow, and all are gone once the lifetime that the last save with one gave is over.
  pub get_history-save_all :
      (vs : List Save) (now n : ℕ) (start_ts end_ts : Option ℕ) (s : R.State)
      → AllRead json (map entry vs)
      → R.lrange (get_storage_key node_id interval "history") last s ≡ []
      → R.deadline (get_storage_key node_id interval "history") s ≡ none
      → get_history R json node_id interval (suc n) start_ts end_ts (R.tick now (save_all vs s))
        ≡ take
            (suc n)
            (keep_if (in_window start_ts end_ts) (at_time now (kept vs nothing_kept)).entries)
  unfolding get_history
  get_history-save_all vs now n start_ts end_ts s reads fresh undated =
      let k = at_time now (kept vs nothing_kept) in
      let es = k.entries in
      let s' = R.tick now (save_all vs s) in
      let all =
        (tick-Holds now (kept vs nothing_kept) (save_all vs s)
          (save_all-Holds vs nothing_kept s (record { listed = fresh; due = undated }))).listed in
      let r =
        at_time-AllRead json now (kept vs nothing_kept)
          (kept-AllRead json vs nothing_kept reads tt) in
      elim (Bool-cases (is_falsy start_ts && is_falsy end_ts)) [
        | inl whole ↦
            if_true _ _ _ whole
            ∙ ap (load_items R json) (
                lawful.lrange-up_to key (index n) s'
                ∙ ap (take (suc n)) all
                ∙ take-map json.dumps (suc n) es)
            ∙ load_items-map (take (suc n) es) (take-AllRead json (suc n) es r)
            ∙ ap (take (suc n)) (sym (keep_all start_ts end_ts es whole))
        | inr part ↦
            if_false _ _ _ part
            ∙ ap (λ l. take (suc n) (keep_if (in_window start_ts end_ts) (load_items R json l))) all
            ∙ ap (λ l. take (suc n) (keep_if (in_window start_ts end_ts) l)) (load_items-map es r)
      ]
