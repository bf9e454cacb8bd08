-- ===== src/Sdk/State/Examples.antt =====
-- Three saves on a server in memory, and the theorem at them. The codec is one for the entries at hand.
use qmtl.Base.{
  ℕ, List, [], ◌∷◌, ◌≡◌, refl, none, some, ◌==◌, if◌then◌else◌, nat_eq, keep_if, lookup, insert,
}
use qmtl.Sdk.Value.{atom}
use qmtl.Sdk.State.{Entry, Json, take, in_window, save_history, load_items, get_history}
use qmtl.Sdk.State.Memory.{Server, memory, memory-IsLawful}
use qmtl.Sdk.State.Kept.{Save, kept, nothing_kept, at_time}
use qmtl.Sdk.State.Window.{save_all, get_history-save_all}

program : Unit {0}
unfolding lookup insert save_history load_items get_history
program = tt

abbrev entry_at : ℕ → Entry
entry_at t = record { timestamp = t; value = atom "x" }

abbrev codec : Json
codec = record {
  dumps = λ e.
      if nat_eq e.timestamp 5 then "five" else if nat_eq e.timestamp 7 then "seven" else "nine";
  loads = λ s.
      some (if s == "five" then entry_at 5 else if s == "seven" then entry_at 7 else entry_at 9);
  dumps_meta = λ m. "meta";
  loads_meta = λ s. none;
}

abbrev save : ℕ → Save
save t = record { now = t; value = atom "x"; max_items = 2; ttl = some 60 }

abbrev saves : List Save
saves = save 5 ∷ save 7 ∷ save 9 ∷ []

abbrev nothing : Server
nothing = record { lists = []; texts = []; deadlines = λ k. none }

two_kept : (kept saves nothing_kept).entries ≡ entry_at 9 ∷ entry_at 7 ∷ []
two_kept = refl

-- A save at 0 with a lifetime of 60 is gone at 100, when another one is made.
first_gone : (kept (save 0 ∷ save 100 ∷ []) nothing_kept).entries ≡ entry_at 100 ∷ []
first_gone = refl

get_history-save_all_example :
    get_history memory codec "ema" "1d" 3
      (some 7)
      none
      (memory.tick 20 (save_all memory memory-IsLawful codec "ema" "1d" saves nothing))
    ≡ take 3 (keep_if (in_window (some 7) none) (at_time 20 (kept saves nothing_kept)).entries)
unfolding lookup
get_history-save_all_example =
    get_history-save_all memory memory-IsLawful codec "ema" "1d" saves 20 2 (some 7) none nothing
      (refl, (refl, (refl, tt))) refl refl
