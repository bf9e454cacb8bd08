-- ===== src/Core/Queue.antt =====
-- dag_manager/core/queue_repository.py: the work queue in two Redis lists and a hash of results.
pub mod Memory
pub mod Order
pub mod Calls
pub mod Conserved
pub mod Completion
use qmtl.Base.{
  count, ℕ, zero, suc, ◌+◌, ◌<◌, String, List, [], ◌∷◌, ◌++◌, ◌≡◌, Bool, true, false, not, Option,
  none, some, ◌==◌, if◌then◌else◌, nat_eq, keep_if,
}

-- The list without a value.
abbrev pub without : String → List String → List String
without v xs = keep_if (λ x. not (x == v)) xs

-- What BRPOPLPUSH does: it returns an item, or nothing when its time runs out. With a time of 0 it never runs
-- out: the caller waits, and its pop comes after the push that ends the wait.
pub data Popped : Type 0 where
  popped : String → Popped
  nothing waits : Popped

-- The commands of a Redis server that the repository uses. `items` is LRANGE of a whole list, its head first.
pub record Redis : Type 1 where
  pub State : Type 0
  pub items : String → State → List String
  pub hget : (key field : String) → State → Option String
  pub lpush : (key value : String) → State → State
  pub brpoplpush : (source target : String) → (timeout : ℕ) → State → Popped × State
  pub lrem : (key value : String) → State → ℕ × State
  pub hset : (key field value : String) → State → State
  pub expire : (key : String) → (ttl : ℕ) → State → State

-- What the server's documentation says of them. A time to live
-- of at least a second has not run out yet when `expire` returns.
pub record IsLawful (R : Redis) : Type 0 where
  pub items-lpush :
      (k v j : String) (s : R.State)
      → R.items j (R.lpush k v s) ≡ (if k == j then v ∷ R.items j s else R.items j s)
  pub brpoplpush-empty :
      (a b : String) (t : ℕ) (s : R.State)
      → R.items a s ≡ []
      → R.brpoplpush a b t s ≡ (if nat_eq t 0 then waits else nothing, s)
  pub brpoplpush-last :
      (a b x : String) (xs : List String) (t : ℕ) (s : R.State)
      → R.items a s ≡ xs ++ x ∷ []
      → (R.brpoplpush a b t s).0 ≡ popped x
  pub items-brpoplpush :
      (a b j x : String) (xs : List String) (t : ℕ) (s : R.State)
      → R.items a s ≡ xs ++ x ∷ []
      → (a == b) ≡ false
      → R.items j (R.brpoplpush a b t s).1
        ≡ (if a == j then xs else if b == j then x ∷ R.items j s else R.items j s)
  pub lrem-count : (k v : String) (s : R.State) → (R.lrem k v s).0 ≡ count v (R.items k s)
  pub items-lrem :
      (k v j : String) (s : R.State)
      → R.items j (R.lrem k v s).1 ≡ (if k == j then without v (R.items j s) else R.items j s)
  pub items-hset : (k f v j : String) (s : R.State) → R.items j (R.hset k f v s) ≡ R.items j s
  pub hget-hset : (k f v : String) (s : R.State) → R.hget k f (R.hset k f v s) ≡ some v
  pub items-expire :
      (k : String) (t : ℕ) (j : String) (s : R.State)
      → 0 < t
      → R.items j (R.expire k t s) ≡ R.items j s
  pub hget-expire :
      (k : String) (t : ℕ) (j f : String) (s : R.State)
      → 0 < t
      → R.hget j f (R.expire k t s) ≡ R.hget j f s

-- `json.dumps` of a payload and `json.loads`, whose `none` is an exception.
pub record Json : Type 0 where
  pub dumps : (completed_at result : String) → String
  pub loads : String → Option (String × String)

pub record Keys : Type 0 where
  pub queue_key : String
  pub processing_key : String
  pub results_key : String

abbrev pub default_keys : Keys
default_keys = record {
  queue_key = "qmtl:dag:work_queue";
  processing_key = "qmtl:dag:processing";
  results_key = "qmtl:dag:results";
}

-- What `get_result` returns: the payload, or the stored text where it cannot be read.
pub data Stored : Type 0 where
  payload : (completed_at result : String) → Stored
  raw : String → Stored

module _ (R : Redis) (json : Json) (keys : Keys) where
  unfoldable pub push : String → R.State → R.State
  push item s = R.lpush keys.queue_key item s

  unfoldable pub pop : ℕ → R.State → Popped × R.State
  pop timeout s = R.brpoplpush keys.queue_key keys.processing_key timeout s

  -- `now` is `_now_iso()`.
  unfoldable pub complete :
      (work_id result : String) → (ttl : ℕ) → (now : String) → R.State → Bool × R.State
  complete work_id result ttl now s =
      let (removed, s') = R.lrem keys.processing_key work_id s in
      if nat_eq removed 0 then (false, s') else (
        true,
        R.expire keys.results_key ttl (R.hset keys.results_key work_id (json.dumps now result) s'),
      )

  abbrev read_payload : String → Stored
  read_payload text = elim (json.loads text) [
    | none ↦ raw text
    | some (completed_at, result) ↦ payload completed_at result
  ]

  unfoldable pub get_result : String → R.State → Option Stored
  get_result work_id s = elim (R.hget keys.results_key work_id s) [
    | none ↦ none
    | some text ↦ if text == "" then none else some (read_payload text)
  ]
