-- ===== src/Registry/Client.antt =====
-- dag_manager/registry/registry_client.py: the HTTP client of the registry. `send` stands for httpx, which answers
-- or raises an `HTTPError`; a URL is what comes after the base URL. Ids are put into it as they are.
pub mod Status
pub mod OverApi
use Prim.Native.String
use qmtl.Base.{
  ℕ, String, List, [], ◌∷◌, Bool, true, false, not, ◌||◌, Option, none, some, ◌==◌, nat_eq,
  if◌then◌else◌, Result, ok, err,
}
use qmtl.Registry.Api.Json.{
  Json, null, boolean, number, text, array, object, Items, end, item, Fields, empty, field, get,
}
use qmtl.Registry.Api.Routes.{Method, post, delete}
use qmtl.Registry.Api.Routes

-- A response; the body is a JSON object or some other text.
pub data Body : Type 0 where
  json : Fields → Body
  plain : String → Body

pub record Response : Type 0 where
  pub status_code : ℕ
  pub body : Body

-- `RegistryClientError`, its subclass `RegistryConnectionError`, and what is neither
pub data Failure : Type 0 where
  client_error connection_error : String → Failure
  other : String → Failure

abbrev pub Outcome : Type 0 → Type 0 → Type 0
Outcome S A = S × Result Failure A

-- What `send` gives: a response, or the text of an `HTTPError`
abbrev pub Transport : Type 0 → Type 0
Transport S = Method → (url : String) → Option Fields → S → S × Result String Response

abbrev detail_of : Body → String
detail_of (json fs) = elim (get "detail" fs) [ some (text t) ↦ t | _ ↦ "" ]
detail_of (plain t) = t

abbrev parsed : Body → Result Failure Fields
parsed (json fs) = ok fs
parsed (plain t) = err (other "not JSON")

-- The number of the status and the cut at 100 characters are left out of the text.
abbrev pub error_text : Response → String
error_text r = String.◌++◌ "Registry API 오류: " (detail_of r.body)

-- `_handle_response`
unfoldable pub handle_response : ℕ → Response → Result Failure Fields
handle_response expected r =
    if nat_eq r.status_code expected then parsed r.body else err (client_error (error_text r))

abbrev pub flag : Option Json → Bool → Bool
flag (some (boolean b)) default = b
flag _ default = default

abbrev pub count_of : Option Json → ℕ
count_of (some (number n)) = n
count_of _ = 0

abbrev pub texts_of : Items → List String
texts_of end = []
texts_of (item (text t) vs) = t ∷ texts_of vs
texts_of (item _ vs) = texts_of vs

abbrev pub items_of : Option Json → Items
items_of (some (array vs)) = vs
items_of _ = end

abbrev pub map_result : {A B : Type 0} → (A → B) → Result Failure A → Result Failure B
map_result f (ok a) = ok (f a)
map_result f (err e) = err e

-- `except httpx.HTTPError as e: raise RegistryClientError(...)`
abbrev pub answered :
    {S A : Type 0}
    → String
    → (Response → Result Failure A)
    → S × Result String Response
    → Outcome S A
answered prefix f (s, ok r) = (s, f r)
answered prefix f (s, err e) = (s, err (client_error (String.◌++◌ prefix e)))

abbrev pub nodes_path : String
nodes_path = "/v1/registry/nodes"

abbrev pub strategies_path : String
strategies_path = "/v1/registry/strategies"

abbrev pub below : String → String → String
below path rest = String.◌++◌ path (String.◌++◌ "/" rest)

abbrev pub node_path : String → String
node_path n = below nodes_path n

abbrev pub strategy_path : String → String
strategy_path v = below strategies_path v

-- `f"{path}/{id}/{rest}"`
abbrev pub below_id : String → String → String → String
below_id path id rest = below path (below id rest)

module _ {S : Type 0} (send : Transport S) where
  unfoldable pub health_check : S → Outcome S Fields
  health_check s = checked (send Routes.get "/" none s)
    where
      checked : S × Result String Response → Outcome S Fields
      checked (s', ok r) = (s', handle_response 200 r)
      checked (s', err e) = (s', err (connection_error (String.◌++◌ "Registry API 연결 실패: " e)))

  unfoldable pub delete_node : String → S → Outcome S Bool
  delete_node n s =
      answered "노드 삭제 실패: "
        (λ r.
          if nat_eq r.status_code 404
          then ok false
          else map_result (λ fs. flag (get "success" fs) false) (handle_response 200 r))
        (send delete (node_path n) none s)

  -- `success` is every answer that is 200 or 201.
  unfoldable pub add_contains_relationship :
      (strategy_version_id node_id : String) → S → Outcome S Bool
  add_contains_relationship v n s =
      answered "CONTAINS 관계 생성 실패: "
        (λ r. ok (nat_eq r.status_code 200 || nat_eq r.status_code 201))
        (send post (below_id strategies_path v (below "nodes" n)) none s)

  unfoldable pub remove_contains_relationship :
      (strategy_version_id node_id : String) → S → Outcome S Bool
  remove_contains_relationship v n s =
      answered "CONTAINS 관계 삭제 실패: " (λ r. ok (not (nat_eq r.status_code 404)))
        (send delete (below_id strategies_path v (below "nodes" n)) none s)

  unfoldable pub get_node_ref_count : String → S → Outcome S ℕ
  get_node_ref_count n s =
      answered "노드 참조 카운트 조회 실패: "
        (λ r.
          if nat_eq r.status_code 404
          then ok 0
          else map_result (λ fs. count_of (get "ref_count" fs)) (handle_response 200 r))
        (send Routes.get (below_id nodes_path n "ref-count") none s)

  unfoldable pub get_node_ref_strategies : String → S → Outcome S (List String)
  get_node_ref_strategies n s =
      answered "노드 참조 전략 목록 조회 실패: "
        (λ r.
          if nat_eq r.status_code 404
          then ok []
          else map_result (λ fs. texts_of (items_of (get "strategy_version_ids" fs)))
              (handle_response 200 r))
        (send Routes.get (below_id nodes_path n "ref-strategies") none s)

  -- `validate` stands for `DataNode.model_validate` or `StrategyVersion.model_validate`, where the class
  -- has it; what it raises, and whatever else is not an `HTTPError`, is only logged.
  module _ {A : Type 0} (validate : Json → Result Failure A) where
    abbrev pub swallow : Result Failure A → Result Failure (Option A)
    swallow (ok a) = ok (some a)
    swallow (err e) = ok none

    abbrev pub validated : Option Json → Result Failure (Option A)
    validated none = ok none
    validated (some v) = swallow (validate v)

    abbrev pub from_fields : String → Result Failure Fields → Result Failure (Option A)
    from_fields key (ok fs) = validated (get key fs)
    from_fields key (err e) = ok none

    abbrev pub fetched : String → Response → Result Failure (Option A)
    fetched key r =
        if nat_eq r.status_code 404 then ok none else from_fields key (handle_response 200 r)

    unfoldable pub get_node : String → S → Outcome S (Option A)
    get_node n s = answered "노드 조회 실패: " (fetched "node") (send Routes.get (node_path n) none s)

    unfoldable pub get_strategy : String → S → Outcome S (Option A)
    get_strategy v s =
        answered "전략 조회 실패: " (fetched "strategy") (send Routes.get (strategy_path v) none s)

    -- Entries that do not validate are left out.
    abbrev add_valid : Result Failure A → List A → List A
    add_valid (ok a) rest = a ∷ rest
    add_valid (err e) rest = rest

    abbrev pub valid_items : Items → List A
    valid_items end = []
    valid_items (item v vs) = add_valid (validate v) (valid_items vs)

    abbrev pub nodes_of : Result Failure Fields → Result Failure (List A)
    nodes_of (ok fs) = ok (valid_items (items_of (get "nodes" fs)))
    nodes_of (err e) = err e

    abbrev pub listed : Response → Result Failure (List A)
    listed r = if nat_eq r.status_code 404 then ok [] else nodes_of (handle_response 200 r)

    unfoldable pub get_strategy_nodes : String → S → Outcome S (List A)
    get_strategy_nodes v s =
        answered "전략 노드 목록 조회 실패: " listed
          (send Routes.get (below_id strategies_path v "nodes") none s)

  -- `dump` stands for the `model_dump` of the node, or for what makes a dict of the metadata.
  unfoldable pub register_node : Result Failure Fields → S → Outcome S (Option Json)
  register_node (err e) s = (s, err e)
  register_node (ok dump) s =
      answered "노드 등록 실패: " (λ r. map_result (get "node_id") (handle_response 201 r))
        (send post nodes_path (some (field "node" (object dump) empty)) s)

  unfoldable pub register_strategy : Result Failure Fields → S → Outcome S (Option Json)
  register_strategy (err e) s = (s, err e)
  register_strategy (ok dump) s =
      answered "전략 등록 실패: " (λ r. map_result (get "version_id") (handle_response 201 r))
        (send post strategies_path (some (field "metadata" (object dump) empty)) s)
