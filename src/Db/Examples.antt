-- ===== src/Db/Examples.antt =====
-- A pool of ten clients, and the theorems at it.
use qmtl.Base.{ℕ, ◌+◌, ◌≤◌, [], none, some, ok, err, ◌≡◌, refl, ◌↔◌, length}
use qmtl.Db.Pool.{
  Settings, Pool, blocked, got, failed, get_client, release_client, client, construct, new_pool,
  close_all,
}
use qmtl.Db.Pool.Reach.{System, begin, start, then, asks, after_get, reach_bounded}

abbrev settings : Settings
settings = record {
  uri = some "bolt://localhost:7687";
  username = some "neo4j";
  password = some "secret";
}

program : Unit {0}
unfolding get_client release_client client construct close_all
program = tt

abbrev fresh : Pool ℕ
fresh = new_pool settings 10

-- A client that was given back is used again, and a failed creation costs no permit.
reuse :
    ((get_client (err "down") (release_client 7 (get_client (ok 7) fresh).0)).1 ≡ got 7)
    × (get_client (err "down") fresh ≡ (fresh, failed "down"))
unfolding program
reuse = (refl, refl)

-- A call of the class without settings keeps the instance.
same_instance :
    construct (record { uri = none; username = none; password = none }) 5 (some fresh) ≡ fresh
unfolding program
same_instance = refl

abbrev one_held : System ℕ
one_held = after_get [] (get_client (ok 7) fresh)

reach_bounded_example :
    (length (one_held.held) + length (one_held.store.pool) ≤ 10)
    × (((get_client (ok 8) (one_held.store)).1 ≡ blocked) ↔ (length (one_held.held) ≡ 10))
reach_bounded_example =
    reach_bounded settings 10 (ok 8) one_held (then start (asks (ok 7) (begin settings 10)))
