-- ===== src/Registry/Api/Clients.antt =====
-- dag_manager/registry/api.py: the dependencies that FastAPI calls for each request, outside of the test mode.
-- They take clients from the pool (common/db/connection_pool.py); nothing gives one back.
use qmtl.Base.{
  ℕ, zero, suc, ◌+◌, ◌≤◌, String, List, [], ◌∷◌, Bool, true, false, Result, ok, ◌≡◌, refl, ◌∙◌, ◌↔◌,
  arith, leb,
}
use qmtl.Db.Pool.{Settings, Pool, Got, blocked, got, failed, new_pool, get_client}

-- How a dependency ends: the service is there, the request waits for a client, or it fails.
pub data Ready : Type 0 where
  ready waits : Ready
  fails : String → Ready

module _ {A : Type 0} where
  -- What is done once a client is there
  abbrev with_client : (Pool A → Pool A × Ready) → Pool A × Got A → Pool A × Ready
  with_client rest (p, got client) = rest p
  with_client rest (p, blocked) = (p, waits)
  with_client rest (p, failed e) = (p, fails e)

  abbrev built : Pool A → Pool A × Ready
  built p = (p, ready)

  module _ (made : Result String A) where
    unfoldable pub get_node_service : Pool A → Pool A × Ready
    get_node_service p = with_client built (get_client made p)

    unfoldable pub get_strategy_service : Pool A → Pool A × Ready
    get_strategy_service p = with_client built (get_client made p)

    unfoldable pub get_snapshot_service : Pool A → Pool A × Ready
    get_snapshot_service p = with_client built (get_client made p)

    -- One client for each of the three services
    unfoldable pub get_metadata_service : Pool A → Pool A × Ready
    get_metadata_service p =
        with_client
          (λ p₁. with_client (λ p₂. with_client built (get_client made p₂)) (get_client made p₁))
          (get_client made p)

    -- `init_neo4j_schema` runs with the client; any failure is only logged.
    unfoldable pub on_startup : Pool A → Pool A × Ready
    on_startup p = with_client built (get_client made p)

pub data Dependency : Type 0 where
  startup node_service strategy_service snapshot_service metadata_service : Dependency

abbrev pub clients_of : Dependency → ℕ
clients_of startup = 1
clients_of node_service = 1
clients_of strategy_service = 1
clients_of snapshot_service = 1
clients_of metadata_service = 3

abbrev pub total : List Dependency → ℕ
total [] = 0
total (d ∷ ds) = clients_of d + total ds

module _ {A : Type 0} (made : Result String A) where
  abbrev pub depend : Dependency → Pool A → Pool A × Ready
  depend startup = on_startup made
  depend node_service = get_node_service made
  depend strategy_service = get_strategy_service made
  depend snapshot_service = get_snapshot_service made
  depend metadata_service = get_metadata_service made

  -- Requests one after another: whether each of them gets its service
  abbrev and_then : (Pool A → Bool) → Pool A × Ready → Bool
  and_then rest (p, ready) = rest p
  and_then rest (p, waits) = false
  and_then rest (p, fails e) = false

  unfoldable pub all_ready : List Dependency → Pool A → Bool
  all_ready [] p = true
  all_ready (d ∷ ds) p = and_then (all_ready ds) (depend d p)

module _ {A : Type 0} (c : A) where
  get_client-got :
      (p : Pool A) (n : ℕ)
      → p.pool ≡ []
      → p.available ≡ suc n
      → get_client (ok c) p ≡ (record p { available = n }, got c)
  unfolding get_client
  get_client-got p n none_pooled free = ground arith

  get_client-blocked : (p : Pool A) → p.available ≡ 0 → get_client (ok c) p ≡ (p, blocked)
  unfolding get_client
  get_client-blocked p none_free = rw none_free refl

  -- On a pool that holds no client, the test says whether `k` permits are free.
  abbrev Asks : (Pool A → Bool) → ℕ → Type 0
  Asks f k = (p : Pool A) (n : ℕ) → p.pool ≡ [] → p.available ≡ n → f p ≡ leb k n

  Asks-with_client :
      (ds : List Dependency) (rest : Pool A → Pool A × Ready) (k m : ℕ)
      → m ≡ suc k
      → Asks (λ p. and_then (ok c) (all_ready (ok c) ds) (rest p)) k
      → Asks (λ p. and_then (ok c) (all_ready (ok c) ds) (with_client rest (get_client (ok c) p))) m
  Asks-with_client ds rest k m e h p zero none_pooled free =
      rw (get_client-blocked p free) (ground arith)
  Asks-with_client ds rest k m e h p (suc n) none_pooled free =
      rw (get_client-got p n none_pooled free)
        (h (record p { available = n }) n none_pooled refl ∙ ground arith)

  all_ready-Asks : (ds : List Dependency) → Asks (all_ready (ok c) ds) (total ds)
  unfolding all_ready get_node_service get_strategy_service get_snapshot_service
      get_metadata_service on_startup
  all_ready-Asks [] = λ p n none_pooled free. ground arith
  all_ready-Asks (metadata_service ∷ ds) =
      let once =
        Asks-with_client ds built (total ds) (1 + total ds) (omega arith) (all_ready-Asks ds) in
      let twice =
        Asks-with_client ds (λ p. with_client built (get_client (ok c) p)) (1 + total ds)
          (2 + total ds) (omega arith) once in
      Asks-with_client ds _ (2 + total ds) _ (omega arith) twice
  all_ready-Asks (startup ∷ ds) =
      Asks-with_client ds built (total ds) _ (omega arith) (all_ready-Asks ds)
  all_ready-Asks (node_service ∷ ds) =
      Asks-with_client ds built (total ds) _ (omega arith) (all_ready-Asks ds)
  all_ready-Asks (strategy_service ∷ ds) =
      Asks-with_client ds built (total ds) _ (omega arith) (all_ready-Asks ds)
  all_ready-Asks (snapshot_service ∷ ds) =
      Asks-with_client ds built (total ds) _ (omega arith) (all_ready-Asks ds)

  -- Requests that come one after another, each over before the next, all get their services exactly when
  -- together they need at most `max_size` clients.
  pub all_ready_iff :
      (settings : Settings) (max_size : ℕ) (ds : List Dependency)
      → (all_ready (ok c) ds (new_pool settings max_size) ≡ true) ↔ (total ds ≤ max_size)
  all_ready_iff settings max_size ds =
      rw (all_ready-Asks ds (new_pool settings max_size) max_size refl refl) (ground arith)
