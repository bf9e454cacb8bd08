-- ===== src/Db/Pool/Context.antt =====
-- The context manager of the pool.
use qmtl.Base.{ℕ, String, List, ◌∷◌, Result, refl, arith}
use qmtl.Db.Pool.{Pool, Got, blocked, got, failed, get_client, release_client, run_body, client}
use qmtl.Db.Pool.Reach.{IsBalanced, after_get, get_client-IsBalanced}

module _ {ℓ κ} {A : Type ℓ} {B : Type κ} where
  run_body-IsBalanced :
      (n : ℕ) (held : List A) (body : A → Pool A → Pool A × B) (g : Pool A × Got A)
      → ((c : A) (q : Pool A)
          → IsBalanced n (record { store = q; held = c ∷ held })
          → IsBalanced n (record { store = (body c q).0; held = c ∷ held }))
      → IsBalanced n (after_get held g)
      → IsBalanced n (record { store = (run_body body g).0; held = held })
  run_body-IsBalanced n held body (p, blocked) keeps b = b
  run_body-IsBalanced n held body (p, failed e) keeps b = b
  run_body-IsBalanced n held body (p, got c) keeps b =
      let b' = keeps c p b in
      unfold release_client in
      record { permits = omega (arith, b'.permits); pooled = omega (arith, b'.pooled) }

  -- Where the body of a `with` block, given a client, keeps the pool's permits in balance with the clients
  -- that are held, so does the whole block, and after it the same clients are held as before, whether
  -- the body returns or raises, and whether a client could be had or not.
  pub client-IsBalanced :
      (n : ℕ) (made : Result String A) (body : A → Pool A → Pool A × B) (p : Pool A) (held : List A)
      → ((c : A) (q : Pool A)
          → IsBalanced n (record { store = q; held = c ∷ held })
          → IsBalanced n (record { store = (body c q).0; held = c ∷ held }))
      → IsBalanced n (record { store = p; held = held })
      → IsBalanced n (record { store = (client made body p).0; held = held })
  unfolding client
  client-IsBalanced n made body p held keeps b =
      run_body-IsBalanced n held body (get_client made p) keeps
        (get_client-IsBalanced n made p p.pool held refl b)
