-- ===== src/Registry/Callbacks/Refines.antt =====
-- The callback service over a sequence of calls.
use qmtl.Base.{
  ◌≤◌, String, List, [], ◌∷◌, ◌++◌, ◌≡◌, refl, ◌∙◌, ap, not, none, ◌==◌, if◌then◌else◌, any, nat_eq,
  length, lookup, lookup-insert, insert, or_else, arith, eq_iff, Option-cases, Bool-cases, inl, inr,
}
use qmtl.Registry.Callbacks.{
  Callback, Callbacks, registered, others, register_callback, unregister_callback, triggered,
  trigger_callbacks,
}

pub data Call : Type 0 where
  register : (node_id callback_type : String) → Callback → Call
  unregister : (node_id callback_type url : String) → Call

abbrev step : Callbacks → Call → Callbacks
step s (register n t cb) = (register_callback n t cb s).1
step s (unregister n t url) = (unregister_callback n t url s).1

unfoldable pub run : Callbacks → List Call → Callbacks
run s [] = s
run s (c ∷ cs) = run (step s c) cs

-- The callbacks of one node and type that a sequence of calls leaves, read off the calls: those
-- registered and not taken back since, in order.
unfoldable pub remaining_callbacks :
    (node_id callback_type : String) → List Callback → List Call → List Callback
remaining_callbacks n t cbs [] = cbs
remaining_callbacks n t cbs (register m u cb ∷ cs) =
    let kept = remaining_callbacks n t cbs cs in
    let longer = remaining_callbacks n t (cbs ++ cb ∷ []) cs in
    if m == n then (if u == t then longer else kept) else kept
remaining_callbacks n t cbs (unregister m u url ∷ cs) =
    let kept = remaining_callbacks n t cbs cs in
    let shorter = remaining_callbacks n t (others url cbs) cs in
    if m == n then (if u == t then shorter else kept) else kept

registered-register :
    (m u n t : String) (cb : Callback) (s : Callbacks)
    → registered n t (register_callback m u cb s).1 ≡ (
        if m == n
        then (if u == t then registered n t s ++ cb ∷ [] else registered n t s)
        else registered n t s)
unfolding register_callback
registered-register m u n t cb s = ground (
  arith,
  lookup-insert m n
      (insert u (or_else [] (lookup u (or_else [] (lookup m s))) ++ cb ∷ [])
        (or_else [] (lookup m s)))
      s,
  lookup-insert u t (or_else [] (lookup u (or_else [] (lookup m s))) ++ cb ∷ [])
      (or_else [] (lookup m s)),
  eq_iff m n,
  eq_iff u t,
)

registered-absent : (n t : String) (s : Callbacks) → lookup n s ≡ none → registered n t s ≡ []
unfolding lookup
registered-absent n t s h = rw h refl

registered-unregister :
    (m u n t url : String) (s : Callbacks)
    → registered n t (unregister_callback m u url s).1 ≡ (
        if m == n
        then (if u == t then others url (registered n t s) else registered n t s)
        else registered n t s)
unfolding unregister_callback
registered-unregister m u n t url s = elim (Option-cases (lookup m s)) [
  | inl absent ↦ elim (Bool-cases (m == n)) [
    | inr other ↦ ground arith
    | inl same ↦
        let nothing = registered-absent n t s (ground (arith, (eq_iff m n).0 same)) in
        ground (arith, ap (others url) nothing, nothing)
  ]
  | inr (d, there) ↦ ground (
    arith,
    lookup-insert m n (insert u (others url (registered m u s)) d) s,
    lookup-insert u t (others url (registered m u s)) d,
    eq_iff m n,
    eq_iff u t,
  )
]

registered-run :
    (n t : String) (cs : List Call) (s : Callbacks)
    → registered n t (run s cs) ≡ remaining_callbacks n t (registered n t s) cs
unfolding run remaining_callbacks
registered-run n t [] s = refl
registered-run n t (register m u cb ∷ cs) s =
    registered-run n t cs (register_callback m u cb s).1
    ∙ ground (arith, registered-register m u n t cb s)
registered-run n t (unregister m u url ∷ cs) s =
    registered-run n t cs (unregister_callback m u url s).1
    ∙ ground (arith, registered-unregister m u n t url s)

length-others_le : (url : String) (cbs : List Callback) → length (others url cbs) ≤ length cbs
length-others_le url [] = omega arith
length-others_le url (cb ∷ cbs) = ground (arith, length-others_le url cbs)

-- Something goes exactly if one of the callbacks has the address.
others_shorter :
    (url : String) (cbs : List Callback)
    → nat_eq (length cbs) (length (others url cbs)) ≡ not (any (λ cb. cb.url == url) cbs)
others_shorter url [] = refl
others_shorter url (cb ∷ cbs) = ground (arith, others_shorter url cbs, length-others_le url cbs)

-- After any calls on a new service an event of a node and a type is answered once for each callback
-- that was registered for the two and not taken back since, in the order of their registration; and
-- taking back an address succeeds exactly if one of those has it.
pub run-remaining_callbacks :
    (cs : List Call) (n t url : String)
    → (trigger_callbacks n t (run [] cs) ≡ triggered (remaining_callbacks n t [] cs))
      × ((unregister_callback n t url (run [] cs)).0.success
          ≡ any (λ cb. cb.url == url) (remaining_callbacks n t [] cs))
unfolding trigger_callbacks unregister_callback lookup
run-remaining_callbacks cs n t url =
    let left : registered n t (run [] cs) ≡ remaining_callbacks n t [] cs =
      registered-run n t cs [] in
    (
      ap triggered left,
      ground (
        arith,
        others_shorter url (registered n t (run [] cs)),
        ap (any (λ cb. cb.url == url)) left,
      ),
    )
