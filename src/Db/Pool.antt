-- ===== src/Db/Pool.antt =====
-- common/db/connection_pool.py: the pool of Neo4j clients. A client is opaque, and what its creation gives
-- is an argument of the calls that create one. The lock makes each section that it guards one step.
pub mod Reach
pub mod Context
use qmtl.Base.{
  ℕ, suc, ◌+◌, ◌-◌, String, List, [], ◌∷◌, Bool, true, false, ◌&&◌, not, Option, none, some, ltb,
  if◌then◌else◌, is_some, Result, ok, err,
}

pub record Settings : Type 0 where
  pub uri : Option String
  pub username : Option String
  pub password : Option String

-- `available` is the count of the semaphore; the head of `pool` is the back of the Python list.
pub record Pool {ℓ} (A : Type ℓ) : Type ℓ where
  pub settings : Settings
  pub max_size : ℕ
  pub available : ℕ
  pub pool : List A

-- How a call of `get_client` ends: it waits for the semaphore, gives a client, or raises.
pub data Got {ℓ} (A : Type ℓ) : Type ℓ where
  blocked : Got A
  got : A → Got A
  failed : String → Got A

-- A call of the class without arguments
abbrev no_settings : Settings → Bool
no_settings s = not (is_some s.uri) && (not (is_some s.username) && not (is_some s.password))

module _ {ℓ} {A : Type ℓ} where
  abbrev pub new_pool : Settings → ℕ → Pool A
  new_pool settings max_size = record {
    settings = settings;
    max_size = max_size;
    available = max_size;
    pool = [];
  }

  -- `__new__` and `__init__`: there is one instance, and a call without settings keeps it as it is.
  unfoldable pub construct : Settings → ℕ → Option (Pool A) → Pool A
  construct settings max_size none = new_pool settings max_size
  construct settings max_size (some p) =
      if no_settings settings then p else new_pool settings max_size

  -- What follows `_available.acquire()`; a failed creation gives the permit back.
  abbrev pub take : Result String A → Pool A → List A → Pool A × Got A
  take (ok client) p [] = (p, got client)
  take (err e) p [] = (record p { available = suc p.available }, failed e)
  take made p (client ∷ rest) = (record p { pool = rest }, got client)

  unfoldable pub get_client : Result String A → Pool A → Pool A × Got A
  get_client made p =
      if ltb 0 p.available
      then take made (record p { available = p.available - 1 }) p.pool
      else (p, blocked)

  unfoldable pub release_client : A → Pool A → Pool A
  release_client client p = record p { pool = client ∷ p.pool; available = suc p.available }

  -- The permits stay as they are.
  unfoldable pub close_all : Pool A → Pool A
  close_all p = record p { pool = [] }

-- `with pool.client() as client: body`: the client goes back whether the body returns or raises.
pub data Ended {ℓ κ} (A : Type ℓ) (B : Type κ) : Type (ℓ ⊔ κ) where
  waits : Ended A B
  refused : String → Ended A B
  ran : A → B → Ended A B

module _ {ℓ κ} {A : Type ℓ} {B : Type κ} where
  abbrev pub give_back : A → Pool A × B → Pool A × Ended A B
  give_back client (p, b) = (release_client client p, ran client b)

  abbrev pub run_body : (A → Pool A → Pool A × B) → Pool A × Got A → Pool A × Ended A B
  run_body body (p, blocked) = (p, waits)
  run_body body (p, failed e) = (p, refused e)
  run_body body (p, got client) = give_back client (body client p)

  unfoldable pub client : Result String A → (A → Pool A → Pool A × B) → Pool A → Pool A × Ended A B
  client made body p = run_body body (get_client made p)
