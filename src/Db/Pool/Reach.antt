-- ===== src/Db/Pool/Reach.antt =====
-- A pool and the clients that its callers hold, over every sequence of calls.
use qmtl.Base.{
  ℕ, ◌+◌, ◌≤◌, String, List, [], ◌∷◌, ◌++◌, Result, ok, err, ◌≡◌, refl, arith, length,
  length-append, ◌↔◌, ◌≢◌, ◌-◌,
}
use qmtl.Db.Pool.{
  Settings, Pool, Got, blocked, got, failed, new_pool, take, get_client, release_client, close_all,
}

pub record System {ℓ} (A : Type ℓ) : Type ℓ where
  pub store : Pool A
  pub held : List A

module _ {ℓ} {A : Type ℓ} where
  abbrev pub after_get : List A → Pool A × Got A → System A
  after_get held (p, got client) = record { store = p; held = client ∷ held }
  after_get held (p, blocked) = record { store = p; held = held }
  after_get held (p, failed e) = record { store = p; held = held }

  -- A caller asks for a client, a holder gives one back, or the pool is closed.
  pub data Step : System A → System A → Type ℓ where
    asks :
        (made : Result String A) (s : System A)
        → Step s (after_get s.held (get_client made s.store))
    gives :
        (client : A) (before after : List A) (p : Pool A)
        → Step
            (record { store = p; held = before ++ client ∷ after })
            (record { store = release_client client p; held = before ++ after })
    closes : (s : System A) → Step s (record s { store = close_all s.store })

  pub data Reach (s : System A) : System A → Type ℓ where
    start : Reach s s
    then : {t u : System A} → Reach s t → Step t u → Reach s u

  abbrev pub begin : Settings → ℕ → System A
  begin settings max_size = record { store = new_pool settings max_size; held = [] }

  -- Each permit is free or stands for a client that is held, and each pooled client has a free one.
  pub record IsBalanced (n : ℕ) (s : System A) : Type 0 where
    pub permits : s.store.available + length s.held ≡ n
    pub pooled : length s.store.pool ≤ s.store.available

  pub get_client-IsBalanced :
      (n : ℕ) (made : Result String A) (p : Pool A) (cs held : List A)
      → p.pool ≡ cs
      → IsBalanced n (record { store = p; held = held })
      → IsBalanced n (after_get held (get_client made p))
  unfolding get_client
  get_client-IsBalanced n (ok c) p [] held e b = ground arith
  get_client-IsBalanced n (err m) p [] held e b = ground arith
  get_client-IsBalanced n made p (c ∷ cs) held e b = ground arith

  pub Step-IsBalanced : (n : ℕ) (s t : System A) → Step s t → IsBalanced n s → IsBalanced n t
  Step-IsBalanced n s _ (asks made _) b =
      get_client-IsBalanced n made s.store s.store.pool s.held refl b
  Step-IsBalanced n _ _ (gives client before after p) b =
      unfold release_client in
      record {
        permits =
            omega
              (arith, b.permits, length-append before (client ∷ after), length-append before after);
        pooled = omega (arith, b.pooled);
      }
  Step-IsBalanced n s _ (closes _) b =
      unfold close_all in record { permits = b.permits; pooled = omega arith }

  reach-IsBalanced : (n : ℕ) (s t : System A) → Reach s t → IsBalanced n s → IsBalanced n t
  reach-IsBalanced n s _ start b = b
  reach-IsBalanced n s _ (then {t} {u} r step) b =
      Step-IsBalanced n t u step (reach-IsBalanced n s t r b)

  begin-IsBalanced : (settings : Settings) (n : ℕ) → IsBalanced n (begin settings n)
  begin-IsBalanced settings n = record { permits = omega arith; pooled = omega arith }

  take-ne-blocked :
      (made : Result String A) (p : Pool A) (cs : List A) → (take made p cs).1 ≢ blocked
  take-ne-blocked (ok c) p [] h = cc
  take-ne-blocked (err e) p [] h = cc
  take-ne-blocked made p (c ∷ cs) h = cc

  -- A caller that asks for a client waits exactly when `max_size` clients are held.
  waits_iff :
      (n : ℕ) (made : Result String A) (s : System A)
      → IsBalanced n s
      → ((get_client made s.store).1 ≡ blocked) ↔ (length s.held ≡ n)
  unfolding get_client
  waits_iff n made s b = ground (
    arith,
    b.permits,
    take-ne-blocked made (record (s.store) { available = s.store.available - 1 }) s.store.pool,
  )

  -- In every state that calls reach from a new pool, the clients that are open, held or pooled, are at
  -- most `max_size`, and a caller that asks for one waits exactly when `max_size` of them are held.
  pub reach_bounded :
      (settings : Settings) (max_size : ℕ) (made : Result String A) (s : System A)
      → Reach (begin settings max_size) s
      → (length s.held + length s.store.pool ≤ max_size)
        × (((get_client made s.store).1 ≡ blocked) ↔ (length s.held ≡ max_size))
  reach_bounded settings max_size made s r =
      let b =
        reach-IsBalanced max_size (begin settings max_size) s r
          (begin-IsBalanced settings max_size) in
      (omega (arith, b.permits, b.pooled), waits_iff max_size made s b)
