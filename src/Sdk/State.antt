-- ===== src/Sdk/State.antt =====
-- sdk/execution/state_manager.py: the history of a node in a Redis list, with a key for its description.
-- The branches for a server that fails are left out: the server's commands are total here.
pub mod Kept
pub mod Window
pub mod Memory
mod Examples
use Prim.Native.String
use Prim.Native.String.{◌++◌}
use qmtl.Base.{
  ◌+◌, ℕ, zero, suc, ◌<◌, ◌≤◌, min, String, List, [], ◌∷◌, ◌≡◌, Bool, true, false, not, ◌&&◌,
  Option, none, some, ◌==◌, if◌then◌else◌, leb, ltb, nat_eq, keep_if, length, or_else, map,
}
use qmtl.Sdk.Value.{Value}

-- The last place of a range: an index, or -1 for the last element.
pub data Stop : Type 0 where
  index : ℕ → Stop
  last : Stop

-- `n - 1`
abbrev pub minus_one : ℕ → Stop
minus_one zero = last
minus_one (suc n) = index n

-- `{"timestamp": timestamp, "value": value}`
pub record Entry : Type 0 where
  pub timestamp : ℕ
  pub value : Value

pub record Meta : Type 0 where
  pub last_update : ℕ
  pub count : ℕ
  pub max_items : ℕ
  pub ttl : Option ℕ

-- `json.dumps` and `json.loads` of the two kinds of values; `none` is an exception.
pub record Json : Type 0 where
  pub dumps : Entry → String
  pub loads : String → Option Entry
  pub dumps_meta : Meta → String
  pub loads_meta : String → Option Meta

module _ {ℓ} {A : Type ℓ} where
  -- The elements from the first to a stop.
  abbrev pub take : ℕ → List A → List A
  take zero xs = []
  take (suc n) [] = []
  take (suc n) (x ∷ xs) = x ∷ take n xs

  abbrev pub up_to : Stop → List A → List A
  up_to last xs = xs
  up_to (index n) xs = take (suc n) xs

-- The commands that the manager uses; ranges begin at 0. `deadline` is EXPIRETIME of a list, none where it has no
-- time to live. `tick` lets the server's clock run on to a time, in whole seconds: a list whose deadline is
-- reached is gone. The commands of one call take no time.
pub record Redis : Type 1 where
  pub State : Type 0
  pub tick : (now : ℕ) → State → State
  pub deadline : String → State → Option ℕ
  pub lrange : String → Stop → State → List String
  pub llen : String → State → ℕ
  pub get : String → State → Option String
  pub lpush : (key value : String) → State → State
  pub ltrim : String → Stop → State → State
  pub expire : (now : ℕ) → String → (ttl : ℕ) → State → State
  pub set : (key value : String) → (ex : Option ℕ) → State → State

-- The deadline is reached.
abbrev pub is_over : (now : ℕ) → Option ℕ → Bool
is_over now none = false
is_over now (some t) = leb t now

-- What the server's documentation says of them: LPUSH and LTRIM keep the time to live of a list that is there
-- and does not become empty, and EXPIRE counts from the time of the command.
pub record IsLawful (R : Redis) : Type 0 where
  pub lrange-up_to :
      (k : String) (t : Stop) (s : R.State) → R.lrange k t s ≡ up_to t (R.lrange k last s)
  pub lrange-lpush :
      (k v j : String) (s : R.State)
      → R.lrange j last (R.lpush k v s)
        ≡ (if k == j then v ∷ R.lrange j last s else R.lrange j last s)
  pub lrange-ltrim :
      (k j : String) (t : Stop) (s : R.State)
      → R.lrange j last (R.ltrim k t s)
        ≡ (if k == j then up_to t (R.lrange j last s) else R.lrange j last s)
  pub lrange-expire :
      (now : ℕ) (k j : String) (ttl : ℕ) (s : R.State)
      → 0 < ttl
      → R.lrange j last (R.expire now k ttl s) ≡ R.lrange j last s
  pub lrange-set :
      (k v j : String) (ex : Option ℕ) (s : R.State)
      → (k == j) ≡ false
      → R.lrange j last (R.set k v ex s) ≡ R.lrange j last s
  pub lrange-tick :
      (now : ℕ) (j : String) (s : R.State)
      → R.lrange j last (R.tick now s)
        ≡ (if is_over now (R.deadline j s) then [] else R.lrange j last s)
  pub deadline-tick :
      (now : ℕ) (j : String) (s : R.State)
      → R.deadline j (R.tick now s)
        ≡ (if is_over now (R.deadline j s) then none else R.deadline j s)
  pub deadline-lpush :
      (k v j : String) (s : R.State) → R.deadline j (R.lpush k v s) ≡ R.deadline j s
  pub deadline-ltrim :
      (k j v : String) (vs : List String) (t : Stop) (s : R.State)
      → R.lrange k last (R.ltrim k t s) ≡ v ∷ vs
      → R.deadline j (R.ltrim k t s) ≡ R.deadline j s
  pub deadline-expire :
      (now : ℕ) (k v : String) (vs : List String) (ttl : ℕ) (s : R.State)
      → 0 < ttl
      → R.lrange k last s ≡ v ∷ vs
      → R.deadline k (R.expire now k ttl s) ≡ some (now + ttl)
  pub deadline-set :
      (k v j : String) (ex : Option ℕ) (s : R.State)
      → (k == j) ≡ false
      → R.deadline j (R.set k v ex s) ≡ R.deadline j s

abbrev pub get_storage_key : (node_id interval key_type : String) → String
get_storage_key node_id interval key_type =
    "node:" ++ (node_id ++ (":" ++ (key_type ++ (":" ++ interval))))

-- `if start_ts and ts <= start_ts: continue`, and likewise for the end.
abbrev pub after_start : Option ℕ → ℕ → Bool
after_start none ts = true
after_start (some zero) ts = true
after_start (some (suc t)) ts = not (leb ts (suc t))

abbrev pub before_end : Option ℕ → ℕ → Bool
before_end none ts = true
before_end (some zero) ts = true
before_end (some (suc t)) ts = not (ltb (suc t) ts)

abbrev pub in_window : (start_ts end_ts : Option ℕ) → Entry → Bool
in_window start_ts end_ts e = after_start start_ts e.timestamp && before_end end_ts e.timestamp

abbrev pub is_falsy : Option ℕ → Bool
is_falsy none = true
is_falsy (some zero) = true
is_falsy (some (suc n)) = false

module _ (R : Redis) (json : Json) where
  abbrev pub expire_if : (now : ℕ) → String → (ttl : Option ℕ) → R.State → R.State
  expire_if now key none s = s
  expire_if now key (some zero) s = s
  expire_if now key (some (suc ttl)) s = R.expire now key (suc ttl) s

  -- What the pipeline of commands does to the list.
  abbrev pub push_item :
      (now : ℕ) → String → String → (max_items : ℕ) → (ttl : Option ℕ) → R.State → R.State
  push_item now key serialized max_items ttl s =
      expire_if now key ttl (R.ltrim key (minus_one max_items) (R.lpush key serialized s))

  -- `now` is `int(time.time())`, the server's time of the call too.
  unfoldable pub save_history :
      (now : ℕ)
      → (node_id interval : String) → Value
      → (max_items : ℕ) → (ttl : Option ℕ) → R.State
      → Bool × R.State
  save_history now node_id interval value max_items ttl s =
      let key = get_storage_key node_id interval "history" in
      let s' =
        push_item now key (json.dumps (record { timestamp = now; value = value })) max_items ttl
          (R.tick now s) in
      (
        true,
        R.set (get_storage_key node_id interval "meta")
            (json.dumps_meta (record {
              last_update = now;
              count = min max_items (R.llen key s');
              max_items = max_items;
              ttl = ttl;
            }))
            ttl s',
      )

  -- The items that can be read, in order.
  unfoldable pub load_items : List String → List Entry
  load_items [] = []
  load_items (i ∷ is) =
      let rest = load_items is in elim (json.loads i) [ none ↦ rest | some e ↦ e ∷ rest ]

  unfoldable pub get_history :
      (node_id interval : String)
      → (count : ℕ) → (start_ts end_ts : Option ℕ) → R.State
      → List Entry
  get_history node_id interval count start_ts end_ts s =
      let key = get_storage_key node_id interval "history" in
      if is_falsy start_ts && is_falsy end_ts
      then load_items (R.lrange key (minus_one count) s)
      else take count (keep_if (in_window start_ts end_ts) (load_items (R.lrange key last s)))

  unfoldable pub get_interval_data :
      (node_id interval : String) → (count : ℕ) → R.State → List Value
  get_interval_data node_id interval count s =
      map (λ e. e.value) (get_history node_id interval count none none s)
