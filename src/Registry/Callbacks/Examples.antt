-- ===== src/Registry/Callbacks/Examples.antt =====
-- Calls of the callback service, and the theorem at them.
use qmtl.Base.{List, [], ◌∷◌, ◌≡◌, refl, ◌==◌, any, lookup, insert}
use qmtl.Registry.Callbacks.{
  Callback, register_callback, unregister_callback, list_callbacks, triggered, trigger_callbacks,
}
use qmtl.Registry.Callbacks.Refines.{
  Call, register, unregister, run, remaining_callbacks, run-remaining_callbacks,
}

program : Unit {0}
unfolding lookup insert register_callback unregister_callback list_callbacks trigger_callbacks run
    remaining_callbacks
program = tt

abbrev first : Callback
first = record { url = "http://a"; metadata = [] }

abbrev second : Callback
second = record { url = "http://b"; metadata = [] }

abbrev calls : List Call
calls =
    register "n" "NODE_CREATED" first
    ∷ register "n" "NODE_CREATED" second
    ∷ unregister "n" "NODE_CREATED" "http://a"
    ∷ unregister "m" "NODE_CREATED" "http://b"
    ∷ []

kept : remaining_callbacks "n" "NODE_CREATED" [] calls ≡ second ∷ []
unfolding program
kept = refl

listed :
    list_callbacks (λ k. "node_created") "n" (run [] calls) ≡ ("node_created", second ∷ []) ∷ []
unfolding program
listed = refl

run-remaining_callbacks_example :
    (trigger_callbacks "n" "NODE_CREATED" (run [] calls)
      ≡ triggered (remaining_callbacks "n" "NODE_CREATED" [] calls))
    × ((unregister_callback "n" "NODE_CREATED" "http://b" (run [] calls)).0.success
        ≡ any (λ cb. cb.url == "http://b") (remaining_callbacks "n" "NODE_CREATED" [] calls))
run-remaining_callbacks_example = run-remaining_callbacks calls "n" "NODE_CREATED" "http://b"
