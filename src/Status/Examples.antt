-- ===== src/Status/Examples.antt =====
-- A pipeline of two nodes, and the theorems at it.
use qmtl.Base.{
  [], ◌∷◌, true, false, some, none, ok, err, ◌≡◌, refl, ◌↔◌, inl, all, values, lookup, insert,
  erase,
}
use qmtl.Status.{
  PipelineStatus, StatusService, new_service, value_error, status_service_error, is_done,
  initialize_pipeline, update_pipeline_status, update_pipeline_progress, updated_node,
  update_node_status, cleanup_pipeline, cleanup_old_pipelines, get_all_node_statuses,
}
use qmtl.Status.Progress.{HasShares, initializes, updates_node, cleans_old, run, run-HasShares}
use qmtl.Status.Times.{update_node_status-whole, update_node_status-twice}

program : Unit {0}
unfolding initialize_pipeline update_pipeline_status update_pipeline_progress updated_node
    update_node_status cleanup_pipeline cleanup_old_pipelines lookup insert erase
program = tt

abbrev service : StatusService
unfolding initialize_pipeline insert
service = initialize_pipeline 1 "p" ("a" ∷ "b" ∷ []) [] new_service

abbrev running : StatusService
unfolding program
running = (update_node_status false true 2 "p" "a" "RUNNING" service).0

-- One of two nodes runs: a quarter is done.
quarter :
    elim (lookup "p" running.pipelines) [ none ↦ none | some p ↦ some p.progress ]
    ≡ some (record { done = 1; whole = 4 })
unfolding program
quarter = refl

unknown :
    (update_node_status false true 2 "q" "a" "RUNNING" service ≡ (service, err (value_error "q")))
    × (update_node_status false true 2 "p" "c" "RUNNING" service ≡ (service, err (value_error "c")))
    × ((cleanup_old_pipelines (λ p. some true) service).1 ≡ some 1)
    × (cleanup_old_pipelines (λ p. none) service ≡ (service, none))
    × (cleanup_old_pipelines (λ p. none) new_service ≡ (new_service, some 0))
unfolding program
unknown = (refl, refl, refl, refl, refl)

updated : update_node_status false true 2 "p" "a" "RUNNING" service ≡ (running, ok tt)
unfolding program
updated = refl

run-HasShares_example : HasShares (
    run new_service (
      initializes 1 "p" ("a" ∷ "b" ∷ []) []
      ∷ updates_node false true 2 "p" "a" "RUNNING"
      ∷ cleans_old (λ p. none)
      ∷ []))
run-HasShares_example = run-HasShares (
    initializes 1 "p" ("a" ∷ "b" ∷ []) []
    ∷ updates_node false true 2 "p" "a" "RUNNING"
    ∷ cleans_old (λ p. none)
    ∷ [])

abbrev before : PipelineStatus
before = record {
  pipeline_id = "p";
  status = "PENDING";
  progress = record { done = 0; whole = 1 };
  params = [];
  start_time = 1;
  last_update = 1;
  end_time = none;
}

known : lookup "p" service.pipelines ≡ some before
unfolding program
known = refl

update_node_status-whole_example :
    (q : PipelineStatus) × (lookup "p" running.pipelines ≡ some q)
    × ((q.progress.done ≡ q.progress.whole)
        ↔ (all (λ n. is_done n.status) (values (get_all_node_statuses "p" running)) ≡ true))
update_node_status-whole_example =
    update_node_status-whole false true 2 "p" "a" "RUNNING" service running before updated known

update_node_status-twice_example :
    update_node_status false true 3 "p" "a" "RUNNING" running ≡ (running, err status_service_error)
update_node_status-twice_example =
    update_node_status-twice true true 2 3 "p" "a" "RUNNING" "RUNNING" service running
      (inl (refl, refl)) updated
