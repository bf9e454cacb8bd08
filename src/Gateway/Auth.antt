-- ===== src/Gateway/Auth.antt =====
-- gateway/middlewares/auth.py: the bearer token middleware.
use text.Mathlib.Text.{starts_with}
use qmtl.Base.{
  ℕ, String, List, [], ◌∷◌, Bool, false, not, ◌&&◌, Option, none, some, ◌==◌, if◌then◌else◌, ltb,
  contains,
}
use qmtl.Gateway.Http.{Claims, Request, Handler, http_error}

pub record JwtConfig : Type 0 where
  pub secret_key : String
  pub algorithm : String
  pub exclude_paths : List String

abbrev pub bearer : Option (List (String × String))
bearer = some (("WWW-Authenticate", "Bearer") ∷ [])

-- `jwt.decode(token, secret_key, algorithms=[algorithm])`; `none` is a `JWTError`.
abbrev pub Decoder : Type 0
Decoder = (token secret_key algorithm : String) → Option Claims

abbrev pub is_expired : Option ℕ → ℕ → Bool
is_expired none now = false
is_expired (some exp) now = ltb exp now

abbrev pub is_write : Request → Bool
is_write request = not (request.method == "GET") && starts_with request.path "/v1/gateway"

-- `decode` is the token library, and `now` is `time.time()` in the unit of the `exp` claim.
unfoldable pub authenticate : Decoder → ℕ → JwtConfig → Handler → Handler
authenticate decode now config call_next request =
    if contains request.path config.exclude_paths
    then call_next request
    else if is_write request
    then http_error 405 "Only GET requests are allowed for this endpoint" none
    else elim request.authorization [
      | none ↦ http_error 401 "Not authenticated" bearer
      | some token ↦ elim (decode token config.secret_key config.algorithm) [
        | none ↦ http_error 401 "Invalid authentication credentials" bearer
        | some payload ↦
            if is_expired payload.exp now
            then http_error 401 "Token expired" bearer
            else call_next (record request { user = some payload })
      ]
    ]
