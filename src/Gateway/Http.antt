-- ===== src/Gateway/Http.antt =====
-- What the middlewares and endpoints of qmtl/gateway see of a request, a response and an exception.
use qmtl.Base.{ℕ, String, List, [], Bool, true, false, Option, none, some, Dict}

-- A decoded token: the two claims that the gateway reads, and the others.
pub record Claims : Type 0 where
  pub roles : Option (List String)
  pub exp : Option ℕ
  pub others : Dict String

-- `not user` holds for an absent payload and for an empty one.
abbrev no_claims : Option (List String) → Option ℕ → Dict String → Bool
no_claims none none [] = true
no_claims _ _ _ = false

abbrev pub is_anonymous : Option Claims → Bool
is_anonymous none = true
is_anonymous (some c) = no_claims c.roles c.exp c.others

-- `user.get("roles", [])`
abbrev pub roles_or_empty : Option (List String) → List String
roles_or_empty none = []
roles_or_empty (some roles) = roles

abbrev pub user_roles : Option Claims → List String
user_roles none = []
user_roles (some c) = roles_or_empty c.roles

-- `user` and `request_id` are what earlier middlewares have put into `request.state`.
pub record Request : Type 0 where
  pub path : String
  pub method : String
  pub authorization : Option String
  pub user : Option Claims
  pub request_id : Option String

-- An entry of `exc.errors()`. Pydantic puts the exception of a validator into the entry's `ctx`, and an exception
-- cannot be written as JSON.
pub record ErrorDetail : Type 0 where
  pub text : String
  pub is_serializable : Bool

pub data Body : Type 0 where
  empty : Body
  detail : String → Body
  detail_with_errors : String → List ErrorDetail → Body
  listing : String → Body
  binary : String → Body

pub record Response : Type 0 where
  pub status_code : ℕ
  pub content : Body
  pub headers : Option (Dict String)

pub record HttpException : Type 0 where
  pub status_code : ℕ
  pub detail : String
  pub headers : Option (Dict String)

pub data Exception : Type 0 where
  http : HttpException → Exception
  request_validation : List ErrorDetail → Exception
  data_validation : List ErrorDetail → Exception
  other : String → Exception

pub data Outcome : Type 0 where
  returned : Response → Outcome
  raised : Exception → Outcome

abbrev pub Handler : Type 0
Handler = Request → Outcome

abbrev pub http_error : ℕ → String → Option (Dict String) → Outcome
http_error code text headers =
    raised (http (record { status_code = code; detail = text; headers = headers }))
