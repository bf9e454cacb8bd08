-- ===== src/Sdk/Saving.antt =====
-- sdk/execution/local.py: the bounds under which `execute_pipeline` saves a result, and the cut of all
-- lists at its end.
use qmtl.Base.{
  ℕ, suc, ◌+◌, ◌*◌, String, List, [], ◌∷◌, Option, none, some, ◌==◌, if◌then◌else◌, Dict, lookup,
  insert, or_else,
}
use qmtl.Sdk.Value.{Value}
use qmtl.Sdk.Pipeline.{ProcessingNode, Setting, Intervals, Legacy, scalar, nested}
use qmtl.Sdk.History.{Store, Item, take, cache_key, save_interval_data}

abbrev place_of : String → List String → ℕ → Option ℕ
place_of s [] n = none
place_of s (d ∷ ds) n = if s == d then some n else place_of s ds (suc n)

abbrev digit : String → Option ℕ
digit s = place_of s ("0" ∷ "1" ∷ "2" ∷ "3" ∷ "4" ∷ "5" ∷ "6" ∷ "7" ∷ "8" ∷ "9" ∷ []) 0

-- `int(interval[:-1])` and `interval[-1]`, for an amount that is written in digits alone: Python's `int`
-- also takes signs, blanks and underscores, which an interval does not have.
unfoldable pub amount_and_unit : (before : Option ℕ) → String → Option (ℕ × String)
amount_and_unit before String.[] = none
amount_and_unit before (String.◌∷◌ c s) =
    let this = String.◌∷◌ c String.[] in
    let rest : Option (ℕ × String) = elim (digit this) [
      | none ↦ none
      | some n ↦ amount_and_unit (some (or_else 0 before * 10 + n)) s
    ] in
    let last : Option (ℕ × String) = elim before [ none ↦ none | some n ↦ some (n, this) ] in
    if s == "" then last else rest

abbrev seconds : (amount : ℕ) → (unit : String) → Option ℕ
seconds amount unit =
    if unit == "d"
    then some (amount * 86400)
    else if unit == "h"
    then some (amount * 3600)
    else if unit == "m"
    then some (amount * 60)
    else none

-- The lifetime that the name of an interval stands for.
abbrev pub inferred_ttl : (interval : String) → Option ℕ
inferred_ttl interval = elim (amount_and_unit none interval) [
  | none ↦ none
  | some (amount, unit) ↦ seconds amount unit
]

-- The bounds under which a result is saved; only a dict has bounds of its own.
pub record Bounds : Type 0 where
  pub interval : String
  pub max_history : ℕ
  pub ttl : Option ℕ

abbrev plain_bounds : String → Bounds
plain_bounds interval = record { interval = interval; max_history = 100; ttl = none }

abbrev dict_bounds : String → (max_history ttl : Option ℕ) → Bounds
dict_bounds interval max_history ttl = record {
  interval = interval;
  max_history = or_else 100 max_history;
  ttl = elim ttl [ none ↦ inferred_ttl interval | some t ↦ some t ];
}

abbrev setting_bounds : Intervals → List Bounds
setting_bounds [] = []
setting_bounds ((k, s) ∷ d) =
    (if s.is_object then plain_bounds k else dict_bounds k s.max_history s.ttl) ∷ setting_bounds d

abbrev legacy_bounds : Dict Legacy → List Bounds
legacy_bounds [] = []
legacy_bounds ((k, scalar v) ∷ d) = plain_bounds k ∷ legacy_bounds d
legacy_bounds ((k, nested i p max_history ttl) ∷ d) =
    dict_bounds k max_history ttl ∷ legacy_bounds d

abbrev choose_settings : Intervals → Dict Legacy → List Bounds
choose_settings intervals [] = setting_bounds intervals
choose_settings intervals (l ∷ ls) = legacy_bounds (l ∷ ls)

-- With no stream settings a result is saved under the interval of a day.
abbrev pub node_bounds : ProcessingNode → List Bounds
node_bounds node = elim node.stream_settings [
  | none ↦ plain_bounds "1d" ∷ []
  | some [] ↦ plain_bounds "1d" ∷ []
  | some (i ∷ is) ↦ choose_settings (i ∷ is) node.interval_settings
]

abbrev pub save_all : (now : ℕ) → (name : String) → Value → List Bounds → Store → Store
save_all now name v [] s = s
save_all now name v (b ∷ bs) s =
    save_all now name v bs (save_interval_data now name b.interval v b.max_history b.ttl s)

-- `getattr(settings, "max_history", 100)`: a dict has no such attribute.
abbrev kept_length : Setting → ℕ
kept_length s = if s.is_object then or_else 100 s.max_history else 100

abbrev trim : ℕ → (interval : String) → Dict (List Item) → Dict (List Item)
trim n interval d = elim (lookup interval d) [
  | none ↦ d
  | some items ↦ insert interval (take n items) d
]

abbrev trim_interval : (name : String) → ℕ → (interval : String) → Store → Store
trim_interval name n interval s = record {
  in_memory_cache = trim n (cache_key name interval) s.in_memory_cache;
  history = elim (lookup name s.history) [
    | none ↦ s.history
    | some intervals ↦ insert name (trim n interval intervals) s.history
  ];
}

abbrev pub trim_intervals : (name : String) → Intervals → Store → Store
trim_intervals name [] s = s
trim_intervals name ((k, setting) ∷ d) s =
    trim_intervals name d (trim_interval name (kept_length setting) k s)
