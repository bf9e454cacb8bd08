-- ===== src/Core/Worker/Examples.antt =====
-- The queue on a server in memory, a worker on it, and the theorems at them.
use qmtl.Base.{
  ◌++◌, count, ◌+◌, String, List, [], ◌∷◌, ◌≡◌, refl, false, not, nat_eq, none, some, lookup,
  insert, arith,
}
use qmtl.Core.Queue.{Json, default_keys, push, pop, complete, get_result, nothing, waits}
use qmtl.Core.Queue.Memory.{memory, Server, memory-IsLawful}
use qmtl.Core.Queue.Order.{reverse}
use qmtl.Core.Queue.Calls.{Call, push_call, pop_call, complete_call, pushes, pushed}
use qmtl.Core.Queue.Conserved.{run, held, taken, waiting, processing, taken-run}
use qmtl.Core.Queue.Completion.{complete_once}
use qmtl.Core.Worker.{enqueue_ready_nodes, complete_node}

-- A format that can be read back.
abbrev plain : Json
plain = record { dumps = λ at result. "done"; loads = λ text. some ("noon", "42") }

abbrev idle : Server
idle = record { lists = []; hash = λ key field. none }

abbrev items : List String
items = "a" ∷ "b" ∷ []

program : Unit {0}
unfolding lookup insert push pop complete get_result run taken enqueue_ready_nodes complete_node
program = tt

abbrev calls : List Call
calls =
    push_call "a"
    ∷ push_call "b"
    ∷ pop_call 0
    ∷ push_call "a"
    ∷ pop_call 0
    ∷ complete_call "b" "42" 3600 "noon"
    ∷ []

in_turn : taken memory memory-IsLawful plain default_keys refl calls idle ≡ "a" ∷ "b" ∷ []
unfolding program
in_turn = refl

-- With a time of 0 the pop of an empty queue waits, and with another it ends.
empty_pops :
    (pop memory plain default_keys 0 idle ≡ (waits, idle))
    × (pop memory plain default_keys 5 idle ≡ (nothing, idle))
unfolding program
empty_pops = (refl, refl)

taken-run_example :
    (taken memory memory-IsLawful plain default_keys refl calls idle
        ++ reverse (
            waiting memory memory-IsLawful plain default_keys refl
              (run memory memory-IsLawful plain default_keys refl calls idle))
      ≡ reverse (waiting memory memory-IsLawful plain default_keys refl idle) ++ pushed calls)
    × (count "a" (
          processing memory memory-IsLawful plain default_keys refl
            (run memory memory-IsLawful plain default_keys refl calls idle))
        ≡ count "a" (processing memory memory-IsLawful plain default_keys refl idle)
          + count "a" (taken memory memory-IsLawful plain default_keys refl calls idle))
    × (held memory memory-IsLawful plain default_keys refl "a"
          (run memory memory-IsLawful plain default_keys refl calls idle)
        ≡ held memory memory-IsLawful plain default_keys refl "a" idle + pushes "a" calls)
taken-run_example = taken-run memory memory-IsLawful plain default_keys refl "a" calls idle refl

-- "a" is being processed.
abbrev busy : Server
busy = record { lists = ("qmtl:dag:processing", "a" ∷ []) ∷ []; hash = λ key field. none }

complete_once_example :
    ((complete memory plain default_keys "a" "42" 3600 "noon" busy).0
      ≡ not (nat_eq (count "a" (memory.items "qmtl:dag:processing" busy)) 0))
    × ((complete memory plain default_keys "a" "43" 60 "one"
          (complete memory plain default_keys "a" "42" 3600 "noon" busy).1).0
        ≡ false)
complete_once_example =
    complete_once memory memory-IsLawful plain default_keys refl "a" "42" "43" 3600 60 "noon" "one"
      busy (omega arith)
