-- ===== src/Status/Progress.antt =====
-- The progress of a pipeline.
use qmtl.Base.{
  ℕ, ◌*◌, ◌≤◌, String, List, [], ◌∷◌, Bool, true, Option, none, some, ◌≡◌, refl, subst, ◌↔◌, arith,
  eq_iff, ◌==◌, length, all, Dict, lookup, lookup-insert, lookup-erase, insert, values, Result, ok,
  err, Bool-cases, Option-cases, inl, inr,
}
use qmtl.Status.{
  NodeStatus, Share, PipelineStatus, StatusService, new_service, StatusError, is_done, halves,
  sum_halves, share_of, with_status, initialize_pipeline, update_pipeline_status,
  update_pipeline_progress, updated_node, store_node, update_node_status, cleanup_pipeline,
  cleanup_all, old_ones, remove_old, cleanup_old_pipelines,
}

-- At most the whole, which is not 0
pub record IsShare (x : Share) : Type 0 where
  pub bounded : x.done ≤ x.whole
  pub positive : 1 ≤ x.whole

abbrev pub HasShares : StatusService → Type 0
HasShares s =
    (pid : String) (p : PipelineStatus) → lookup pid s.pipelines ≡ some p → IsShare p.progress

halves_le : (status : String) → halves status ≤ 2
halves_le status = ground arith

sum_halves_le : (d : Dict NodeStatus) → sum_halves d ≤ 2 * length d
sum_halves_le [] = omega arith
sum_halves_le ((id, n) ∷ d) = omega (arith, halves_le n.status, sum_halves_le d)

-- The work is whole exactly when each node is done.
pub sum_halves_iff :
    (d : Dict NodeStatus)
    → (sum_halves d ≡ 2 * length d) ↔ (all (λ n. is_done n.status) (values d) ≡ true)
sum_halves_iff [] = ground arith
sum_halves_iff ((id, n) ∷ d) = ground (arith, sum_halves_iff d, sum_halves_le d, halves_le n.status)

insert-HasShares :
    (s s' : StatusService) (pid : String) (p : PipelineStatus)
    → s'.pipelines ≡ insert pid p s.pipelines
    → IsShare p.progress
    → HasShares s
    → HasShares s'
insert-HasShares s s' pid p stored share h qid q found = elim (Bool-cases (pid == qid)) [
  | inl same ↦
      let stored_here : p ≡ q =
        ground (arith, lookup-insert pid qid p s.pipelines, eq_iff pid qid) in
      subst (λ r. IsShare r.progress) stored_here share
  | inr other ↦ h qid q (ground (arith, lookup-insert pid qid p s.pipelines))
]

share_of-IsShare :
    (now : ℕ) (id : String) (n : NodeStatus) (d : Dict NodeStatus) (p : PipelineStatus)
    → IsShare (share_of now ((id, n) ∷ d) p).progress
share_of-IsShare now id n d p = record {
  bounded = sum_halves_le ((id, n) ∷ d);
  positive = omega arith;
}

with_status-IsShare :
    (now : ℕ) (status : String) (p : PipelineStatus)
    → IsShare p.progress
    → IsShare (with_status now status p).progress
with_status-IsShare now status p h = record {
  bounded = ground (arith, h.bounded);
  positive = ground (arith, h.positive);
}

module _ (now : ℕ) (pid : String) (s : StatusService) where
  progress-HasShares :
      (o : Option (Dict NodeStatus)) (q : Option PipelineStatus)
      → lookup pid s.nodes ≡ o
      → lookup pid s.pipelines ≡ q
      → HasShares s
      → HasShares (update_pipeline_progress now pid s)
  unfolding update_pipeline_progress
  progress-HasShares none q e f h = rw (e, update_pipeline_progress) h
  progress-HasShares (some []) q e f h = rw (e, update_pipeline_progress) h
  progress-HasShares (some (n ∷ d)) none e f h = rw (e, f, update_pipeline_progress) h
  progress-HasShares (some ((id, n) ∷ d)) (some p) e f h =
      rw (e, f, update_pipeline_progress)
        (insert-HasShares s
          (record s { pipelines = insert pid (share_of now ((id, n) ∷ d) p) s.pipelines }) pid
          (share_of now ((id, n) ∷ d) p) refl (share_of-IsShare now id n d p) h)

  update_pipeline_progress-HasShares : HasShares s → HasShares (update_pipeline_progress now pid s)
  update_pipeline_progress-HasShares = progress-HasShares _ _ refl refl

update_pipeline_status-HasShares :
    (takes : Bool) (now : ℕ) (pid status : String) (s : StatusService)
    → HasShares s
    → HasShares (update_pipeline_status takes now pid status s).0
unfolding update_pipeline_status
update_pipeline_status-HasShares takes now pid status s h =
    elim (Option-cases (lookup pid s.pipelines)) [
      | inl absent ↦ rw (absent, update_pipeline_status) h
      | inr (p, found) ↦ elim (Bool-cases takes) [
        | inr refused ↦ rw (found, refused, update_pipeline_status) h
        | inl taken ↦
            rw (found, taken, update_pipeline_status)
              (insert-HasShares s
                (record s { pipelines = insert pid (with_status now status p) s.pipelines }) pid
                (with_status now status p) refl (with_status-IsShare now status p (h pid p found))
                h)
      ]
    ]

store_node-HasShares :
    (now : ℕ) (pid nid : String) (d : Dict NodeStatus) (s : StatusService)
    (r : Result StatusError NodeStatus)
    → HasShares s
    → HasShares (store_node now pid nid d s r).0
store_node-HasShares now pid nid d s (err e) h = h
store_node-HasShares now pid nid d s (ok n) h =
    update_pipeline_progress-HasShares now pid
      (record s { nodes = insert pid (insert nid n d) s.nodes }) h

update_node_status-HasShares :
    (both_names takes : Bool) (now : ℕ) (pid nid status : String) (s : StatusService)
    → HasShares s
    → HasShares (update_node_status both_names takes now pid nid status s).0
unfolding update_node_status
update_node_status-HasShares both_names takes now pid nid status s h =
    elim (Option-cases (lookup pid s.nodes)) [
      | inl absent ↦ rw (absent, update_node_status) h
      | inr (d, found) ↦ elim (Option-cases (lookup nid d)) [
        | inl absent ↦ rw (found, absent, update_node_status) h
        | inr (n, there) ↦ elim (Bool-cases takes) [
          | inr refused ↦ rw (found, there, refused, update_node_status) h
          | inl taken ↦
              rw (found, there, taken, update_node_status)
                (store_node-HasShares now pid nid d s (updated_node both_names now status n) h)
        ]
      ]
    ]

cleanup_pipeline-HasShares :
    (pid : String) (s : StatusService) → HasShares s → HasShares (cleanup_pipeline pid s)
unfolding cleanup_pipeline
cleanup_pipeline-HasShares pid s h qid q found =
    h qid q (ground (arith, lookup-erase pid qid s.pipelines))

cleanup_all-HasShares :
    (pids : List String) (s : StatusService) → HasShares s → HasShares (cleanup_all pids s)
cleanup_all-HasShares [] s h = h
cleanup_all-HasShares (pid ∷ pids) s h =
    cleanup_all-HasShares pids (cleanup_pipeline pid s) (cleanup_pipeline-HasShares pid s h)

remove_old-HasShares :
    (old : Option (List String)) (s : StatusService) → HasShares s → HasShares (remove_old s old).0
remove_old-HasShares none s h = h
remove_old-HasShares (some old) s h = cleanup_all-HasShares old s h

pub data Call : Type 0 where
  initializes :
      (now : ℕ) (pipeline_id : String) (node_ids : List String) (params : Dict String) → Call
  updates_pipeline : (takes : Bool) (now : ℕ) (pipeline_id status : String) → Call
  updates_node : (both_names takes : Bool) (now : ℕ) (pipeline_id node_id status : String) → Call
  cleans : (pipeline_id : String) → Call
  cleans_old : (older : PipelineStatus → Option Bool) → Call

unfoldable pub step : StatusService → Call → StatusService
step s (initializes now pid ids params) = initialize_pipeline now pid ids params s
step s (updates_pipeline takes now pid status) = (update_pipeline_status takes now pid status s).0
step s (updates_node both_names takes now pid nid status) =
    (update_node_status both_names takes now pid nid status s).0
step s (cleans pid) = cleanup_pipeline pid s
step s (cleans_old older) = (cleanup_old_pipelines older s).0

unfoldable pub run : StatusService → List Call → StatusService
run s [] = s
run s (c ∷ cs) = run (step s c) cs

step-HasShares : (s : StatusService) (c : Call) → HasShares s → HasShares (step s c)
unfolding step initialize_pipeline cleanup_old_pipelines
step-HasShares s (initializes now pid ids params) h =
    insert-HasShares s (initialize_pipeline now pid ids params s) pid _ refl
      (record { bounded = omega arith; positive = omega arith }) h
step-HasShares s (updates_pipeline takes now pid status) h =
    update_pipeline_status-HasShares takes now pid status s h
step-HasShares s (updates_node both_names takes now pid nid status) h =
    update_node_status-HasShares both_names takes now pid nid status s h
step-HasShares s (cleans pid) h = cleanup_pipeline-HasShares pid s h
step-HasShares s (cleans_old older) h = remove_old-HasShares (old_ones older s.pipelines) s h

run_from-HasShares : (cs : List Call) (s : StatusService) → HasShares s → HasShares (run s cs)
unfolding run
run_from-HasShares [] s h = h
run_from-HasShares (c ∷ cs) s h = run_from-HasShares cs (step s c) (step-HasShares s c h)

-- After any sequence of calls on a new service, whether they succeed or raise, the progress of each pipeline
-- is a share between nothing and the whole: from 0 to 100 percent, and never a division by 0.
pub run-HasShares : (cs : List Call) → HasShares (run new_service cs)
unfolding lookup
run-HasShares cs = run_from-HasShares cs new_service (λ pid p found. absurd (ground arith))
