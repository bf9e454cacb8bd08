-- ===== src/Core/Queue/Completion.antt =====
-- What `complete` answers, and what `get_result` reads afterwards.
use qmtl.Base.{
  count, ℕ, ◌<◌, String, ◌≡◌, ◌∙◌, ap, true, false, not, some, ◌==◌, if_true, nat_eq, arith,
  eq_refl,
}
use qmtl.Core.Queue.{Redis, IsLawful, Json, Keys, payload, without, complete, get_result}
use qmtl.Core.Queue.Calls.{count-without}
use qmtl.Core.Queue.Conserved.{items-complete}

module _ (R : Redis) (lawful : IsLawful R) (json : Json) (keys : Keys)
    (apart : (keys.queue_key == keys.processing_key) ≡ false) where
  complete_answer :
      (w r : String) (t : ℕ) (now : String) (s : R.State)
      → (complete R json keys w r t now s).0
        ≡ not (nat_eq (count w (R.items keys.processing_key s)) 0)
  unfolding complete
  complete_answer w r t now s = ground (arith, lawful.lrem-count keys.processing_key w s)

  -- A completion succeeds exactly if the item is being processed, and then at once no longer: a second
  -- one fails, until the item is popped again.
  pub complete_once :
      (w r r' : String) (t t' : ℕ) (now now' : String) (s : R.State)
      → 0 < t
      → ((complete R json keys w r t now s).0
          ≡ not (nat_eq (count w (R.items keys.processing_key s)) 0))
        × ((complete R json keys w r' t' now' (complete R json keys w r t now s).1).0 ≡ false)
  complete_once w r r' t t' now now' s pos =
      let pk = keys.processing_key in
      let s' = (complete R json keys w r t now s).1 in
      let left : R.items pk s' ≡ without w (R.items pk s) =
        items-complete R lawful json keys apart w r t now pk s pos ∙ if_true _ _ _ (eq_refl pk) in
      (
        complete_answer w r t now s,
        ground (
          arith,
          complete_answer w r' t' now' s',
          ap (count w) left,
          count-without w w (R.items pk s),
          eq_refl w,
        ),
      )

  -- A result that was recorded for a work item can be read back, where the format of the payloads
  -- reads what it writes.
  pub get_result-complete :
      (w r : String) (t : ℕ) (now : String) (s : R.State)
      → 0 < t
      → json.loads (json.dumps now r) ≡ some (now, r)
      → (json.dumps now r == "") ≡ false
      → (complete R json keys w r t now s).0 ≡ true
      → get_result R json keys w (complete R json keys w r t now s).1 ≡ some (payload now r)
  unfolding complete get_result
  get_result-complete w r t now s pos reads full done =
      let rk = keys.results_key in
      let s' = (R.lrem keys.processing_key w s).1 in
      let stored = R.hset rk w (json.dumps now r) s' in
      let kept : R.hget rk w (R.expire rk t stored) ≡ some (json.dumps now r) =
        lawful.hget-expire rk t rk w stored pos ∙ lawful.hget-hset rk w (json.dumps now r) s' in
      ground arith
