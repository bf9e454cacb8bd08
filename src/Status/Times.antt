-- ===== src/Status/Times.antt =====
-- What a successful update of a node leaves, and that its times are set once.
use qmtl.Base.{
  ℕ, String, [], ◌∷◌, Bool, true, false, Option, none, some, ◌≡◌, ◌↔◌, arith, eq_iff, eq_refl, ◌==◌,
  all, Dict, lookup, lookup-insert, insert, values, ok, err, Bool-cases, Option-cases, Result-cases,
  inl, inr, ◌⊎◌,
}
use qmtl.Status.{
  NodeStatus, PipelineStatus, StatusService, StatusError, status_service_error, is_done, share_of,
  update_pipeline_progress, updated_node, update_node_status, get_all_node_statuses, stamp,
}
use qmtl.Status.Progress.{sum_halves_iff}

-- A successful update stores the updated node and then computes the progress.
module _ (both_names takes : Bool) (now : ℕ) (pid nid status : String) (s s' : StatusService) where
  pub update_node_status-eq :
      update_node_status both_names takes now pid nid status s ≡ (s', ok tt)
      → (d : Dict NodeStatus) × (n m : NodeStatus) × (lookup pid s.nodes ≡ some d)
        × (lookup nid d ≡ some n)
        × (updated_node both_names now status n ≡ ok m)
        × (s'
            ≡ update_pipeline_progress now pid
                (record s { nodes = insert pid (insert nid m d) s.nodes }))
  unfolding update_node_status
  update_node_status-eq h = elim (Option-cases (lookup pid s.nodes)) [
    | inl absent ↦ absurd (ground arith)
    | inr (d, found) ↦ elim (Option-cases (lookup nid d)) [
      | inl absent ↦ absurd (ground arith)
      | inr (n, there) ↦ elim (Bool-cases takes) [
        | inr refused ↦ absurd (ground arith)
        | inl taken ↦ elim (Result-cases (updated_node both_names now status n)) [
          | inr (e, raised) ↦ absurd (ground arith)
          | inl (m, updated) ↦ (d, n, m, found, there, updated, ground arith)
        ]
      ]
    ]
  ]

update_pipeline_progress-nodes :
    (now : ℕ) (pid : String) (s : StatusService)
    → (update_pipeline_progress now pid s).nodes ≡ s.nodes
unfolding update_pipeline_progress
update_pipeline_progress-nodes now pid s = ground arith

-- The progress after an update of a pipeline that is known
progress-share_of :
    (now : ℕ) (pid id : String) (n : NodeStatus) (d : Dict NodeStatus) (p : PipelineStatus)
    (s : StatusService)
    → lookup pid s.nodes ≡ some ((id, n) ∷ d)
    → lookup pid s.pipelines ≡ some p
    → lookup pid (update_pipeline_progress now pid s).pipelines
      ≡ some (share_of now ((id, n) ∷ d) p)
unfolding update_pipeline_progress
progress-share_of now pid id n d p s found known =
    rw (found, known, update_pipeline_progress)
      (ground
        (arith, eq_refl pid, lookup-insert pid pid (share_of now ((id, n) ∷ d) p) s.pipelines))

-- A dict with an entry is not empty.
progress-of_some :
    (now : ℕ) (pid nid : String) (m : NodeStatus) (d : Dict NodeStatus) (p : PipelineStatus)
    (s : StatusService)
    → lookup pid s.nodes ≡ some d
    → lookup nid d ≡ some m
    → lookup pid s.pipelines ≡ some p
    → lookup pid (update_pipeline_progress now pid s).pipelines ≡ some (share_of now d p)
unfolding lookup
progress-of_some now pid nid m [] p s found there known = absurd (ground arith)
progress-of_some now pid nid m ((id, n) ∷ d) p s found there known =
    progress-share_of now pid id n d p s found known

-- After a successful update of a node in a pipeline that is known, the progress of the pipeline, before it is
-- rounded, is whole exactly when each of its nodes is completed or has failed.
pub update_node_status-whole :
    (both_names takes : Bool) (now : ℕ) (pid nid status : String) (s s' : StatusService)
    (p : PipelineStatus)
    → update_node_status both_names takes now pid nid status s ≡ (s', ok tt)
    → lookup pid s.pipelines ≡ some p
    → (q : PipelineStatus) × (lookup pid s'.pipelines ≡ some q)
      × ((q.progress.done ≡ q.progress.whole)
          ↔ (all (λ n. is_done n.status) (values (get_all_node_statuses pid s')) ≡ true))
update_node_status-whole both_names takes now pid nid status s s' p h known =
    let (d, n, m, found, there, updated, same) =
      update_node_status-eq both_names takes now pid nid status s s' h in
    let stored : lookup pid (insert pid (insert nid m d) s.nodes) ≡ some (insert nid m d) =
      ground (arith, lookup-insert pid pid (insert nid m d) s.nodes, eq_refl pid) in
    let there' : lookup nid (insert nid m d) ≡ some m =
      ground (arith, lookup-insert nid nid m d, eq_refl nid) in
    let s₁ : StatusService = record s { nodes = insert pid (insert nid m d) s.nodes } in
    let shared = progress-of_some now pid nid m (insert nid m d) p s₁ stored there' known in
    let kept = update_pipeline_progress-nodes now pid s₁ in
    let listed : get_all_node_statuses pid s' ≡ insert nid m d = ground arith in
    (share_of now (insert nid m d) p, rw same shared, rw listed (sum_halves_iff (insert nid m d)))

stamp-some :
    (both_names : Bool) (now : ℕ) (t u : Option ℕ)
    → stamp both_names true now t ≡ ok u
    → u ≡ some now
stamp-some both_names now none u h = ground arith
stamp-some true now (some t) u h = ground arith
stamp-some false now (some t) u h = absurd (ground arith)

-- Both statuses set the same time.
abbrev pub SameTime : String → String → Type 0
SameTime a b = ((a ≡ "RUNNING") × (b ≡ "RUNNING")) ⊎ ((is_done a ≡ true) × (is_done b ≡ true))

updated_node-times :
    (both_names : Bool) (now : ℕ) (a : String) (n m : NodeStatus)
    → updated_node both_names now a n ≡ ok m
    → (stamp both_names (a == "RUNNING") now n.start_time ≡ ok m.start_time)
      × (stamp both_names (is_done a) now n.end_time ≡ ok m.end_time)
unfolding updated_node
updated_node-times both_names now a n m h =
    elim (Result-cases (stamp both_names (a == "RUNNING") now n.start_time)) [
      | inr (e, raised) ↦ absurd (ground arith)
      | inl (start, begun) ↦ elim (Result-cases (stamp both_names (is_done a) now n.end_time)) [
        | inr (e, raised) ↦ absurd (ground arith)
        | inl (end, ended) ↦ (ground arith, ground arith)
      ]
    ]

-- Where a time is set already, a status that sets it again is refused.
started_again :
    (later : ℕ) (b : String) (m : NodeStatus) (t : ℕ)
    → (b == "RUNNING") ≡ true
    → m.start_time ≡ some t
    → updated_node false later b m ≡ err status_service_error
unfolding updated_node
started_again later b m t running set = ground arith

stamp-err :
    (set : Bool) (now : ℕ) (t : Option ℕ) (e : StatusError)
    → stamp false set now t ≡ err e
    → e ≡ status_service_error
stamp-err false now t e h = absurd (ground arith)
stamp-err true now none e h = absurd (ground arith)
stamp-err true now (some t) e h = ground arith

ended_again :
    (later : ℕ) (b : String) (m : NodeStatus) (t : ℕ)
    → is_done b ≡ true
    → m.end_time ≡ some t
    → updated_node false later b m ≡ err status_service_error
unfolding updated_node
ended_again later b m t done set =
    elim (Result-cases (stamp false (b == "RUNNING") later m.start_time)) [
      | inl (start, begun) ↦ ground arith
      | inr (e, raised) ↦
          let refused = stamp-err (b == "RUNNING") later m.start_time e raised in ground arith
    ]

updated_node-twice :
    (now later : ℕ) (a b : String) (n m : NodeStatus)
    → SameTime a b
    → updated_node false now a n ≡ ok m
    → updated_node false later b m ≡ err status_service_error
updated_node-twice now later a b n m (inl (e, f)) h =
    let (start, end) = updated_node-times false now a n m h in
    started_again later b m now ((eq_iff b "RUNNING").1 f)
      (stamp-some false now n.start_time m.start_time (ground (arith, eq_iff a "RUNNING")))
updated_node-twice now later a b n m (inr (e, f)) h =
    let (start, end) = updated_node-times false now a n m h in
    ended_again later b m now f (stamp-some false now n.end_time m.end_time (ground arith))

-- Where protobuf refuses a dict that gives a field under both of its names, a node whose update to RUNNING
-- succeeded cannot be updated to RUNNING again, nor one that was completed or failed be completed or fail
-- again: the next such update fails with a status service error and changes nothing.
pub update_node_status-twice :
    (takes again : Bool) (now later : ℕ) (pid nid a b : String) (s s' : StatusService)
    → SameTime a b
    → update_node_status false takes now pid nid a s ≡ (s', ok tt)
    → update_node_status false again later pid nid b s' ≡ (s', err status_service_error)
unfolding update_node_status
update_node_status-twice takes again now later pid nid a b s s' kind h =
    let (d, n, m, found, there, updated, same) =
      update_node_status-eq false takes now pid nid a s s' h in
    let s₁ : StatusService = record s { nodes = insert pid (insert nid m d) s.nodes } in
    let kept = update_pipeline_progress-nodes now pid s₁ in
    let stored : lookup pid s'.nodes ≡ some (insert nid m d) =
      ground (arith, lookup-insert pid pid (insert nid m d) s.nodes, eq_refl pid) in
    let there' : lookup nid (insert nid m d) ≡ some m =
      ground (arith, lookup-insert nid nid m d, eq_refl nid) in
    let refused = updated_node-twice now later a b n m kind updated in ground arith
