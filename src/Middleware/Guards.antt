-- ===== src/Middleware/Guards.antt =====
-- `TokenAuth`, `CORS`, `JWTAuth`, `RequireRole` and `hasMinRole` of
-- internal/middleware/middleware.go. What a guard puts into the context, the wrapped handler takes
-- as an argument. A header that the request lacks is the empty text.
pub mod Laws
pub mod Tokens
use oximetric.Base.{
  ℕ, ℤ, Str, lit, Bool, true, false, not, ◌&&◌, List, [], ◌∷◌, ◌++◌, Option, none, some, ◌==◌,
  str_eq, leb, is_empty, has_prefix, trim_prefix, if◌then◌else◌,
}
use oximetric.Model.{Time, ProjectToken}
use oximetric.Storage.Store.{Result}
use oximetric.Auth.{Claims, Crypto, validate_jwt}
use oximetric.Http.{
  Body, Response, Step, Handler, H, ◌>>=◌, ◌>>◌, pure, respond, require, or_respond, try,
  unauthorized, forbidden,
}
use oximetric.Middleware.Origin.{match_origin}

-- The roles' map; a role that it lacks has rank 0.
unfoldable pub rank : Str → ℕ
rank role =
    if role == lit "viewer"
    then 1
    else if role == lit "manager"
    then 2
    else if role == lit "admin"
    then 3
    else 0

unfoldable pub has_min_role : Str → Str → Bool
unfolding rank
has_min_role user_role min_role = leb (rank min_role) (rank user_role)

-- Headers that a guard sets stand on whatever response follows.
abbrev add_headers : {S : Type 0} → List (Str × Str) → S × Step (Unit {0}) → S × Step (Unit {0})
add_headers hs (s, Step.reply r) = (s, Step.reply (record r { headers = hs ++ r.headers }))
add_headers hs (s, Step.go done) = (s, Step.go done)
add_headers hs (s, Step.panic) = (s, Step.panic)

abbrev pub with_headers : {S : Type 0} → List (Str × Str) → Handler S → Handler S
with_headers hs next s = add_headers hs (next s)

-- The headers that echo an admitted origin.
abbrev pub echo_origin : Str → List (Str × Str)
echo_origin origin = (lit "Access-Control-Allow-Origin", origin) ∷ (lit "Vary", lit "Origin") ∷ []

-- Of the store, `TokenAuth` uses one method.
module _ {S : Type 0} (get_project_token_by_token : Str → S → S × Result ProjectToken) where
  -- The part of `TokenAuth` behind the checks of the token itself.
  unfoldable pub with_origin : ProjectToken → Str → (ℤ → Handler S) → Handler S
  with_origin pt origin next =
      if is_empty pt.allowed_origins
      then next pt.project_id
      else if match_origin pt.allowed_origins origin
      then with_headers (echo_origin origin) (next pt.project_id)
      else respond (forbidden (lit "origin not allowed for this token"))

  unfoldable pub token_auth : Str → Str → (ℤ → Handler S) → Handler S
  unfolding with_origin
  token_auth x_token origin next = do
    require (not (is_empty x_token)) (unauthorized (lit "missing X-Token header"))
    pt ← try (get_project_token_by_token x_token) (unauthorized (lit "invalid token"))
    require pt.active (unauthorized (lit "token is disabled"))
    with_origin pt origin next

-- The response to a preflight.
abbrev pub preflight : Str → Response
preflight origin = record {
  status = 204;
  headers =
      (lit "Access-Control-Allow-Origin", origin)
      ∷ (lit "Vary", lit "Origin")
      ∷ (lit "Access-Control-Allow-Methods", lit "POST, OPTIONS")
      ∷ (lit "Access-Control-Allow-Headers", lit "X-Token, Content-Type")
      ∷ (lit "Access-Control-Max-Age", lit "86400")
      ∷ [];
  body = Body.empty;
}

unfoldable pub cors : {S : Type 0} → Str → Str → Handler S → Handler S
cors method origin next =
    if method == lit "OPTIONS" && not (is_empty origin) then respond (preflight origin) else next

unfoldable pub jwt_auth :
    {S : Type 0} → Crypto → Str → Time → Str → (Option Claims → Handler S) → Handler S
jwt_auth crypto secret now authorization next = do
  require (has_prefix authorization (lit "Bearer "))
      (unauthorized (lit "missing or invalid Authorization header"))
  claims ←
      or_respond (validate_jwt crypto secret now (trim_prefix authorization (lit "Bearer ")))
        (unauthorized (lit "invalid or expired token"))
  next (some claims)

unfoldable pub require_role : {S : Type 0} → Str → Option Claims → Handler S → Handler S
unfolding has_min_role
require_role min_role claims next = do
  by ← or_respond claims (unauthorized (lit "not authenticated"))
  require (has_min_role by.role min_role) (forbidden (lit "insufficient permissions"))
  next
