-- ===== src/Server/Replies.antt =====
-- The server answers every request.
use oximetric.Base.{
  ◌≡◌, refl, ℕ, if◌then◌else◌, ℤ, Str, Bool, true, false, List, Option, none, some,
}
use oximetric.Model.{ProjectToken}
use oximetric.Auth.{Claims}
use oximetric.Http.{Response, Step, Handler}
use oximetric.Handler.Console.{ConsoleHandler}
use oximetric.Http.Answers.{IsReply, Answers, Answers-respond, answer_rules}
use oximetric.Storage.Store.{Result}
use oximetric.Handler.Login.{AuthState}
use oximetric.Handler.Answered.Analytics.{
  overview-Answers, events-Answers, event_properties-Answers, devices-Answers, geo-Answers,
  users-Answers, retention-Answers,
}
use oximetric.Handler.Answered.{
  list_users-Answers, create_user-Answers, update_user-Answers, delete_user-Answers, me-Answers,
  change_password-Answers, totp_setup-Answers, totp_enable-Answers, totp_disable-Answers,
  create-Answers, update-Answers, list_tokens-Answers, create_token-Answers, update_token-Answers,
  disable_token-Answers, enable_token-Answers, delete_token-Answers, track-Answers, device-Answers,
  identify-Answers, login-Answers, health-Answers, list_all-Answers, delete-Answers, logout-Answers,
}
use oximetric.Middleware.Guards.{
  with_headers, with_origin, token_auth, cors, jwt_auth, require_role,
}
use oximetric.Middleware.RateLimit.{Arrival, rate_limit}
use oximetric.Middleware.Logging.{LogLine}
use oximetric.Server.Logged.{Replies, secured, serve-Replies}
use oximetric.Server.Routes.{Tracked, Routed, Endpoint, Request, Parts}
use oximetric.Server.{
  State, ServerState, set_db, set_auth, on_store, on_auth, limited, limit_tracking, limit_login,
  tracking_mux, tracked, from_role, jwt_mux, on_console, mux,
}

-- What holds of a piece of code holds of it in front of a larger state.
module _ {S : Type 0} where
  set_db-IsReply :
      (s : ServerState S) (done : S × Step (Unit {0})) → IsReply done.1 → IsReply (set_db s done).1
  set_db-IsReply s (db, a) h = h

  on_store-Answers : (m : Handler S) → Answers m → Answers (on_store m)
  on_store-Answers m h = record { at = λ s. set_db-IsReply s (m s.auth.db) (h.at s.auth.db) }

  set_auth-IsReply :
      (s : ServerState S) (done : AuthState S × Step (Unit {0}))
      → IsReply done.1
      → IsReply (set_auth s done).1
  set_auth-IsReply s (db, a) h = h

  on_auth-Answers : (m : Handler (AuthState S)) → Answers m → Answers (on_auth m)
  on_auth-Answers m h = record { at = λ s. set_auth-IsReply s (m s.auth) (h.at s.auth) }

-- A guard in front of code that answers answers.
module _ {S : Type 0} where
  with_headers-Answers :
      (hs : List (Str × Str)) (m : Handler S) → Answers m → Answers (with_headers hs m)
  with_headers-Answers hs m h = record { at = λ s. go s (m s) (h.at s) }
    where
      go :
          (s : S) (done : S × Step (Unit {0}))
          → IsReply done.1
          → IsReply (with_headers hs (λ _. done) s).1
      go s (s', Step.reply r) p = IsReply.replied _
      go s (s', Step.go a) p = elim p [ ]
      go s (s', Step.panic) p = elim p [ ]

  if-Answers : (b : Bool) (m k : Handler S) → Answers m → Answers k → Answers (if b then m else k)
  if-Answers true m k h g = h
  if-Answers false m k h g = g

  limited-Answers : (m : Handler S) (b : Bool) → Answers m → Answers (limited m b)
  limited-Answers m true h = h
  limited-Answers m false h = Answers-respond _

  require_role-Answers :
      (role : Str) (c : Claims) (m : Handler S) → Answers m → Answers (require_role role (some c) m)
  unfolding require_role
  require_role-Answers role c m h = search answer_rules depth 30

  module _ (find : Str → S → S × Result ProjectToken) where
    with_origin-Answers :
        (pt : ProjectToken) (origin : Str) (next : ℤ → Handler S)
        → ((id : ℤ) → Answers (next id))
        → Answers (with_origin find pt origin next)
    unfolding with_origin
    with_origin-Answers pt origin next h =
        search (answer_rules, if-Answers, with_headers-Answers) depth 30

    token_auth-Answers :
        (x_token origin : Str) (next : ℤ → Handler S)
        → ((id : ℤ) → Answers (next id))
        → Answers (token_auth find x_token origin next)
    unfolding token_auth
    token_auth-Answers x_token origin next h = search (answer_rules, with_origin-Answers) depth 30

  cors-Answers :
      (method origin : Str) (next : Handler S) → Answers next → Answers (cors method origin next)
  unfolding cors
  cors-Answers method origin next h = search (answer_rules, if-Answers) depth 30

module _ {S : Type 0} (refill : ℕ → ℕ → ℕ) (a : Arrival) (next : Handler (ServerState S)) where
  limit_tracking-Answers : Answers next → Answers (limit_tracking refill a next)
  unfolding limit_tracking
  limit_tracking-Answers h = record {
    at = λ s. (limited-Answers next (rate_limit refill 1000 a s.tracking_buckets).0 h).at _;
  }

  limit_login-Answers : Answers next → Answers (limit_login refill a next)
  unfolding limit_login
  limit_login-Answers h = record {
    at = λ s. (limited-Answers next (rate_limit refill 10 a s.login_buckets).0 h).at _;
  }

module _ (parts : Parts) where
  open parts use {
    store, crypto, jwt_secret, runtime, trusted_proxies, refill, thirty_days_before, parse_rfc3339,
    url_parse, quote, analytics,
  }

  tracking_mux-Answers :
      (method : Str) (route : Tracked) (project_id : ℤ)
      → Answers (tracking_mux parts method route project_id)
  unfolding tracking_mux
  tracking_mux-Answers method (Tracked.track peer body) project_id =
      search (if-Answers, track-Answers, Answers-respond)
  tracking_mux-Answers method (Tracked.device body) project_id =
      search (if-Answers, device-Answers, Answers-respond)
  tracking_mux-Answers method (Tracked.identify body) project_id =
      search (if-Answers, identify-Answers, Answers-respond)

  tracked-Answers : (r : Request) (route : Tracked) → Answers (tracked parts r route)
  unfolding tracked
  tracked-Answers r route =
      search
        (
          cors-Answers, token_auth-Answers, limit_tracking-Answers, on_store-Answers,
          tracking_mux-Answers,
        )
        depth 30

  from_role-Answers :
      (role : Str) (c : Claims) (m : Handler store.S)
      → Answers m
      → Answers (from_role parts role (some c) m)
  from_role-Answers role c m h = require_role-Answers role c (on_store m) (on_store-Answers m h)

  ruleset route_rules = (
    on_store-Answers, from_role-Answers, Answers-respond, list_users-Answers, create_user-Answers,
    update_user-Answers, delete_user-Answers, me-Answers, change_password-Answers,
    totp_setup-Answers, totp_enable-Answers, totp_disable-Answers, create-Answers, update-Answers,
    list_tokens-Answers, create_token-Answers, update_token-Answers, disable_token-Answers,
    enable_token-Answers, delete_token-Answers, overview-Answers, events-Answers,
    event_properties-Answers, devices-Answers, geo-Answers, users-Answers, retention-Answers,
    list_all-Answers, delete-Answers, logout-Answers,
  )

  -- Behind `JWTAuth` the claims are there.
  jwt_mux-Answers : (route : Routed) (c : Claims) → Answers (jwt_mux parts route (some c))
  unfolding jwt_mux
  jwt_mux-Answers Routed.logout c = search route_rules
  jwt_mux-Answers _ c = search route_rules

  jwt-Answers :
      (r : Request) (route : Routed)
      → Answers (jwt_auth crypto jwt_secret r.jwt_now r.authorization (jwt_mux parts route))
  unfolding jwt_auth
  jwt-Answers r route = search (answer_rules, jwt_mux-Answers) depth 30

  on_console-Answers :
      (h : Option ConsoleHandler) (answer : ConsoleHandler → Response)
      → Answers (on_console parts h answer)
  on_console-Answers none answer = Answers-respond _
  on_console-Answers (some h) answer = Answers-respond _

  mux-Answers : (r : Request) (endpoint : Endpoint) → Answers (mux parts r endpoint)
  unfolding mux
  mux-Answers r Endpoint.health = search (on_store-Answers, health-Answers)
  mux-Answers r (Endpoint.tracking route) = tracked-Answers r route
  mux-Answers r (Endpoint.login clock body) =
      search (limit_login-Answers, on_auth-Answers, login-Answers)
  mux-Answers r (Endpoint.jwt route) = jwt-Answers r route
  mux-Answers r Endpoint.robots_txt = on_console-Answers _ _
  mux-Answers r Endpoint.console_login = on_console-Answers _ _
  mux-Answers r (Endpoint.console_page p) = on_console-Answers _ _
  mux-Answers r (Endpoint.static_file path) = on_console-Answers _ _
  mux-Answers r (Endpoint.unmatched answer) = Answers-respond answer

  -- Every request to any endpoint is answered, whatever the store does, the bodies decode to and
  -- the libraries return: no handler panics on claims or a record that are missing, or ends without
  -- a response. One line is logged, with the status of the answer.
  pub serve-Answers :
      (r : Request) (s : State parts) (log : List LogLine)
      → (after : State parts) × (x : Response) × Replies parts r s log after x
  serve-Answers r s log = go (mux parts r r.endpoint s) refl ((mux-Answers r r.endpoint).at s)
    where
      go :
          (done : State parts × Step (Unit {0}))
          → mux parts r r.endpoint s ≡ done
          → IsReply done.1
          → (after : State parts) × (x : Response) × Replies parts r s log after x
      go (after, Step.reply x) e p =
          (after, secured parts r s log x, serve-Replies parts r s log after x e)
      go (after, Step.go done) e p = elim p [ ]
      go (after, Step.panic) e p = elim p [ ]
