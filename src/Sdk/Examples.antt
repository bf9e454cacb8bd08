-- ===== src/Sdk/Examples.antt =====
-- A short history of the local engine, and the theorems at it.
use qmtl.Base.{List, [], ◌∷◌, ◌≡◌, refl, none, some, lookup, insert, erase, arith}
use qmtl.Sdk.Value.{atom}
use qmtl.Sdk.History.{
  Store, get_interval_data, save_interval_data, cleanup_lists, cleanup_history,
  cleanup_expired_data, ends_with, clear_cache,
}
use qmtl.Sdk.History.Bounds.{Call, save, cleanup, clear, run, empty, IsBounded, run-IsBounded}
use qmtl.Sdk.History.Expiry.{saved}
use qmtl.Sdk.History.Cleanup.{Agrees, IsKeyed, get_interval_data-cleanup_expired_data}

program : Unit {0}
unfolding lookup insert erase get_interval_data save_interval_data cleanup_lists cleanup_history
    cleanup_expired_data ends_with clear_cache run
program = tt

abbrev calls : List Call
calls =
    save 10 "ema" "1d" (atom "first") 2 (some 5)
    ∷ save 12 "ema" "1d" (atom "second") 2 none
    ∷ save 14 "rsi" "1h" (atom "other") 1 (some 1)
    ∷ cleanup 16
    ∷ clear none (some "1h")
    ∷ []

abbrev two_saves : Store
two_saves =
    save_interval_data 12 "ema" "1d" (atom "second") 2 none
      (save_interval_data 10 "ema" "1d" (atom "first") 2 (some 5) empty)

values_later : get_interval_data 15 "ema" "1d" 9 two_saves ≡ saved 12 (atom "second") none ∷ []
unfolding program
values_later = refl

read_after_calls :
    get_interval_data 16 "ema" "1d" 9 (run calls empty) ≡ saved 12 (atom "second") none ∷ []
unfolding program
read_after_calls = refl

run-IsBounded_example : IsBounded 2 (run calls empty)
run-IsBounded_example = run-IsBounded 2 calls empty refl (refl, refl)

two_saves-IsKeyed : IsKeyed "ema" two_saves
unfolding program
two_saves-IsKeyed = record { cache = (refl, tt); nodes = (refl, tt); intervals = (refl, tt) }

two_saves-Agrees : Agrees "ema" "1d" two_saves
unfolding program
two_saves-Agrees = refl

get_interval_data-cleanup_expired_data_example :
    Agrees "ema" "1d" (cleanup_expired_data 15 two_saves)
    × (get_interval_data 16 "ema" "1d" 9 (cleanup_expired_data 15 two_saves)
        ≡ get_interval_data 16 "ema" "1d" 9 two_saves)
get_interval_data-cleanup_expired_data_example =
    get_interval_data-cleanup_expired_data 15 16 "ema" "1d" 9 two_saves (omega arith)
      two_saves-IsKeyed two_saves-Agrees
