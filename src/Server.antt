-- ===== src/Server.antt =====
-- internal/server/server.go, and `SecurityHeaders` of internal/middleware/security.go: the handlers
-- behind their guards. A request comes with the pattern that net/http's ServeMux matched, the
-- parts of its path, and what encoding/json decoded of its body under the limit of 1 MiB (`none`
-- where that fails).
pub mod Pages
pub mod Routes
pub mod Logged
pub mod Replies
pub mod Console
pub mod Access
pub mod Identity
use oximetric.Base.{
  ℕ, ℤ, Str, lit, Bool, true, false, List, [], ◌∷◌, Option, none, some, ◌==◌, str_eq, if◌then◌else◌,
}
use oximetric.Model.{
  Time, TrackRequest, DeviceRequest, IdentifyRequest, LoginRequest, PasswordChangeRequest,
  TotpEnableRequest, TotpDisableRequest, CreateProjectRequest, UpdateProjectRequest,
  CreateTokenRequest, UpdateTokenRequest, CreateUserRequest, UpdateUserRequest,
}
use oximetric.Storage.Store.{Store, Result}
use oximetric.Storage.Analytics.{AnalyticsStore}
use oximetric.Auth.{Claims, Crypto}
use oximetric.Http.{Response, Step, H, Handler, respond, rate_limited}
use oximetric.Middleware.Guards.{with_headers, token_auth, cors, jwt_auth, require_role}
use oximetric.Middleware.Logging.{LogLine, logging}
use oximetric.Middleware.RateLimit.{Arrival, Buckets, rate_limit}
use oximetric.Handler.Console.{
  ConsoleHandler, console_login, console_page, static_file, robots_response,
}
use oximetric.Server.Pages.{path_of}
use oximetric.Server.Routes.{Tracked, Routed, Endpoint, Request, Parts}
use oximetric.Handler.Tracking.{Runtime, track, device, identify}
use oximetric.Handler.Login.{AuthState, LoginClock, login}
use oximetric.Handler.Account.{logout, me, change_password, totp_setup, totp_enable, totp_disable}
use oximetric.Handler.Projects.{list_all, create, update, delete}
use oximetric.Handler.Tokens.{
  list_tokens, create_token, update_token, disable_token, enable_token, delete_token,
}
use oximetric.Handler.Users.{list_users, create_user, update_user, delete_user}
use oximetric.Handler.Health.{health}
use oximetric.Handler.Analytics.{
  Query, overview, events, event_properties, devices, geo, users, retention,
}

-- The store with the failures of the second factor, and the buckets of the two limiters.
pub record ServerState (S : Type 0) : Type 0 where
  pub auth : AuthState S
  pub tracking_buckets : Buckets
  pub login_buckets : Buckets

module _ {S : Type 0} where
  abbrev pub set_auth {ℓ} : {A : Type ℓ} → ServerState S → AuthState S × A → ServerState S × A
  set_auth s (auth', a) = (record s { auth = auth' }, a)

  abbrev pub on_auth {ℓ} :
      {A : Type ℓ} → (AuthState S → AuthState S × A) → ServerState S → ServerState S × A
  on_auth run s = set_auth s (run s.auth)

  abbrev pub set_db {ℓ} : {A : Type ℓ} → ServerState S → S × A → ServerState S × A
  set_db s (db', a) = (record s { auth = record s.auth { db = db' } }, a)

  abbrev pub on_store {ℓ} : {A : Type ℓ} → (S → S × A) → ServerState S → ServerState S × A
  on_store run s = set_db s (run s.auth.db)

-- `RateLimit` before a handler, with its limit and its own buckets in the state.
abbrev pub limited : {T : Type 0} → Handler T → Bool → Handler T
limited next true = next
limited next false = respond (rate_limited (lit "rate limit exceeded"))

module _ {S : Type 0} (refill : ℕ → ℕ → ℕ) (a : Arrival) (next : Handler (ServerState S)) where
  abbrev pub tracking_limited : Bool × Buckets → Handler (ServerState S)
  tracking_limited (passed, left) s = limited next passed (record s { tracking_buckets = left })

  unfoldable pub limit_tracking : Handler (ServerState S)
  limit_tracking s = tracking_limited (rate_limit refill 1000 a s.tracking_buckets) s

  abbrev pub login_limited : Bool × Buckets → Handler (ServerState S)
  login_limited (passed, left) s = limited next passed (record s { login_buckets = left })

  unfoldable pub limit_login : Handler (ServerState S)
  limit_login s = login_limited (rate_limit refill 10 a s.login_buckets) s

-- The headers that `SecurityHeaders` sets.
abbrev pub security_headers : List (Str × Str)
security_headers =
    (lit "X-Frame-Options", lit "DENY")
    ∷ (lit "X-Content-Type-Options", lit "nosniff")
    ∷ (
      lit "Content-Security-Policy",
      lit
          "default-src 'self'; script-src 'self'; style-src 'self' 'unsafe-inline'; img-src 'self' data:",
    )
    ∷ (lit "Referrer-Policy", lit "strict-origin-when-cross-origin")
    ∷ (lit "X-Permitted-Cross-Domain-Policies", lit "none")
    ∷ []

module _ (parts : Parts) where
  open parts use {
    store, crypto, jwt_secret, runtime, geoip_open, trusted_proxies, version, refill,
    thirty_days_before, parse_rfc3339, url_parse, quote, method_not_allowed, web, console,
    page_not_found,
  }

  abbrev pub State : Type 0
  State = ServerState store.S

  -- `trackingMux`, whose patterns all name POST.
  unfoldable pub tracking_mux : Str → Tracked → ℤ → Handler store.S
  tracking_mux method route project_id =
      if method == lit "POST"
      then elim route [
        | Tracked.track peer body ↦ track store runtime trusted_proxies project_id peer body
        | Tracked.device body ↦ device store runtime project_id body
        | Tracked.identify body ↦ identify store runtime project_id body
      ]
      else respond method_not_allowed

  -- `trackingHandler`
  unfoldable pub tracked : Request → Tracked → Handler State
  unfolding limit_tracking tracking_mux
  tracked r route = cors r.method r.origin (
      token_auth (λ token. on_store (store.get_project_token_by_token token)) r.arrival.x_token
        r.origin
        (λ project_id.
          limit_tracking refill r.arrival (on_store (tracking_mux r.method route project_id))))

  -- A handler behind `RequireRole`.
  abbrev pub from_role : Str → Option Claims → Handler store.S → Handler State
  from_role role claims next = require_role role claims (on_store next)

  -- `jwtMux`
  unfoldable pub jwt_mux : Routed → Option Claims → Handler State
  jwt_mux Routed.logout claims = on_store (logout store crypto)
  jwt_mux Routed.me claims = on_store (me store crypto claims)
  jwt_mux (Routed.change_password body salt) claims =
      on_store (change_password store crypto claims body salt)
  jwt_mux (Routed.totp_setup seed) claims = on_store (totp_setup store crypto claims seed)
  jwt_mux (Routed.totp_enable body now) claims = on_store (totp_enable store crypto claims body now)
  jwt_mux (Routed.totp_disable body) claims = on_store (totp_disable store crypto claims body)
  jwt_mux Routed.list_projects claims = on_store (list_all store)
  jwt_mux (Routed.create_project body) claims =
      from_role (lit "manager") claims (create store claims body)
  jwt_mux (Routed.update_project id body) claims =
      from_role (lit "manager") claims (update store id body)
  jwt_mux (Routed.delete_project id) claims = from_role (lit "admin") claims (delete store id)
  jwt_mux (Routed.list_tokens id) claims =
      from_role (lit "manager") claims (list_tokens store url_parse quote id)
  jwt_mux (Routed.create_token id body drawn) claims =
      from_role (lit "manager") claims (create_token store url_parse quote id body drawn)
  jwt_mux (Routed.update_token id token_id body) claims =
      from_role (lit "manager") claims (update_token store url_parse quote id token_id body)
  jwt_mux (Routed.disable_token id token_id now) claims =
      from_role (lit "manager") claims (disable_token store url_parse quote id token_id now)
  jwt_mux (Routed.enable_token id token_id) claims =
      from_role (lit "manager") claims (enable_token store url_parse quote id token_id)
  jwt_mux (Routed.delete_token token_id) claims =
      from_role (lit "admin") claims (delete_token store url_parse quote token_id)
  jwt_mux Routed.list_users claims = from_role (lit "manager") claims (list_users store crypto)
  jwt_mux (Routed.create_user body salt) claims =
      from_role (lit "admin") claims (create_user store crypto claims body salt)
  jwt_mux (Routed.update_user id body) claims =
      from_role (lit "admin") claims (update_user store crypto claims id body)
  jwt_mux (Routed.delete_user id) claims =
      from_role (lit "admin") claims (delete_user store crypto claims id)
  jwt_mux (Routed.overview id q) claims =
      on_store (overview thirty_days_before parse_rfc3339 parts.analytics id q)
  jwt_mux (Routed.events id q) claims =
      on_store (events thirty_days_before parse_rfc3339 parts.analytics id q)
  jwt_mux (Routed.event_properties id name q) claims =
      on_store (event_properties thirty_days_before parse_rfc3339 parts.analytics id q name)
  jwt_mux (Routed.devices id q) claims =
      on_store (devices thirty_days_before parse_rfc3339 parts.analytics id q)
  jwt_mux (Routed.geo id q) claims =
      on_store (geo thirty_days_before parse_rfc3339 parts.analytics id q)
  jwt_mux (Routed.users id q) claims =
      on_store (users thirty_days_before parse_rfc3339 parts.analytics id q)
  jwt_mux (Routed.retention id q) claims =
      on_store (retention thirty_days_before parse_rfc3339 parts.analytics id q)
  jwt_mux (Routed.unmatched answer) claims = respond answer

  -- A handler of the console, whose patterns are registered if there is one.
  abbrev pub on_console : Option ConsoleHandler → (ConsoleHandler → Response) → Handler State
  on_console none answer = respond page_not_found
  on_console (some h) answer = respond (answer h)

  -- `mux`
  unfoldable pub mux : Request → Endpoint → Handler State
  unfolding tracked jwt_mux limit_login
  mux r Endpoint.health = on_store (health store geoip_open version)
  mux r (Endpoint.tracking route) = tracked r route
  mux r (Endpoint.login clock body) =
      limit_login refill r.arrival (on_auth (login store crypto jwt_secret clock body))
  mux r (Endpoint.jwt route) = jwt_auth crypto jwt_secret r.jwt_now r.authorization (jwt_mux route)
  mux r Endpoint.robots_txt = on_console console (robots_response web)
  mux r Endpoint.console_login = on_console console (console_login web)
  mux r (Endpoint.console_page p) = on_console console (λ h. console_page web h (path_of p))
  mux r (Endpoint.static_file path) = on_console console (λ h. static_file web h path)
  mux r (Endpoint.unmatched answer) = respond answer

  -- The handler of the server that `New` returns.
  unfoldable pub serve : Request → Handler (State × List LogLine)
  unfolding mux logging
  serve r = with_headers security_headers (logging r.method r.path (mux r r.endpoint))
