-- ===== src/Server/Identity/Kept.antt =====
-- No request but an administrator's changes who a console user is.
use oximetric.Base.{
  ℤ, Str, List, lit, Bool, false, sym, subst, Option, none, some, ◌≡◌, refl, ap, leb, has_prefix,
  trim_prefix, Bool-cases, Option-cases, inl, inr,
}
use oximetric.Storage.Schema.{Db}
use oximetric.Storage.Sqlite.Whole.{sqlite}
use oximetric.Storage.Analytics.Sorting.{Dialect, Engine}
use oximetric.Storage.Analytics.Queries.{analytics}
use oximetric.Storage.Analytics.Reads.{IsReading, analytics-IsReading}
use oximetric.Auth.{Claims, validate_jwt}
use oximetric.Http.{Response, Step, Handler}
use oximetric.Handler.Console.{ConsoleHandler}
use oximetric.Middleware.Guards.{rank, jwt_auth, require_role}
use oximetric.Handler.Account.{logout}
use oximetric.Middleware.Logging.{LogLine}
use oximetric.Server.Logged.{serve_state}
use oximetric.Server.Routes.{Tracked, Routed, Endpoint, Request, Parts}
use oximetric.Server.{
  ServerState, on_store, tracking_mux, tracked, from_role, jwt_mux, on_console, mux, serve,
}
use oximetric.Server.Access.{claims_of, least_rank, TurnedAway, is_allowed, jwt_mux-TurnedAway}
use oximetric.Handler.Users.Own.{row_of}
use oximetric.Server.Identity.{
  identity, SameIdentities, IsQuiet, itself, quiet_rules, respond-IsQuiet,
}
use oximetric.Server.Identity.Analytics.{
  overview-IsQuiet, events-IsQuiet, event_properties-IsQuiet, devices-IsQuiet, geo-IsQuiet,
  users-IsQuiet, retention-IsQuiet,
}
use oximetric.Server.Identity.Calls.{get_project_token_by_token-IsQuiet}
use oximetric.Server.Identity.Guards.{
  database, on_store-IsQuiet, on_auth-IsQuiet, token_auth-IsQuiet, cors-IsQuiet,
  limit_tracking-IsQuiet, limit_login-IsQuiet,
}
use oximetric.Server.Identity.Accounts.{
  change_password-IsQuiet, totp_setup-IsQuiet, totp_enable-IsQuiet, totp_disable-IsQuiet,
  me-IsQuiet,
}
use oximetric.Server.Identity.Routes.{
  list_all-IsQuiet, create-IsQuiet, update-IsQuiet, delete-IsQuiet, list_users-IsQuiet,
  list_tokens-IsQuiet, create_token-IsQuiet, update_token-IsQuiet, disable_token-IsQuiet,
  enable_token-IsQuiet, delete_token-IsQuiet,
}
use oximetric.Server.Identity.Tracking.{
  health-IsQuiet, track-IsQuiet, device-IsQuiet, identify-IsQuiet, login-IsQuiet,
}

-- The parts of a server on a SQLite file.
abbrev pub on_sqlite : Parts → Engine → Dialect → Parts
on_sqlite parts engine dialect = record parts {
  store = sqlite;
  analytics = analytics engine dialect;
}

-- The claims are those of an administrator.
abbrev pub is_admin : Option Claims → Bool
is_admin none = false
is_admin (some c) = leb 3 (rank c.role)

require_role-IsQuiet :
    (role : Str) (claims : Option Claims) (next : Handler (ServerState Db))
    → IsQuiet database next
    → IsQuiet database (require_role role claims next)
unfolding require_role
require_role-IsQuiet role claims next h = search quiet_rules depth 30

logout-IsQuiet : (crypto : _) → IsQuiet itself (logout sqlite crypto)
unfolding logout
logout-IsQuiet crypto = search quiet_rules

module _ (parts : Parts) (engine : Engine) (dialect : Dialect) where
  abbrev all : Parts
  all = on_sqlite parts engine dialect

  abbrev reads : IsReading (analytics engine dialect)
  reads = analytics-IsReading engine dialect

  from_role-IsQuiet :
      (role : Str) (claims : Option Claims) (m : Handler Db)
      → IsQuiet itself m
      → IsQuiet database (from_role all role claims m)
  from_role-IsQuiet role claims m h =
      require_role-IsQuiet role claims (on_store m) (on_store-IsQuiet m h)

  ruleset route_rules = (
    on_store-IsQuiet, from_role-IsQuiet, respond-IsQuiet, logout-IsQuiet, change_password-IsQuiet,
    totp_setup-IsQuiet, totp_enable-IsQuiet, totp_disable-IsQuiet, me-IsQuiet, list_all-IsQuiet,
    create-IsQuiet, update-IsQuiet, delete-IsQuiet, list_users-IsQuiet, list_tokens-IsQuiet,
    create_token-IsQuiet, update_token-IsQuiet, disable_token-IsQuiet, enable_token-IsQuiet,
    delete_token-IsQuiet,
  )

  turned_away :
      (s : ServerState Db) (answer : ServerState Db × Step (Unit {0}))
      → TurnedAway s answer
      → SameIdentities (database s) (database answer.0)
  turned_away s answer (r, e, h) id =
      ap (λ (a : ServerState Db × Step (Unit {0})). identity (row_of id (database a.0))) e

  jwt_mux-IsQuiet :
      (route : Routed) (c : Claims)
      → is_admin (some c) ≡ false
      → IsQuiet database (jwt_mux all route (some c))
  unfolding jwt_mux is_allowed least_rank
  jwt_mux-IsQuiet (Routed.create_user body salt) c h = record {
    at = λ s. turned_away s _ (jwt_mux-TurnedAway all (Routed.create_user body salt) c s h);
  }
  jwt_mux-IsQuiet (Routed.update_user id body) c h = record {
    at = λ s. turned_away s _ (jwt_mux-TurnedAway all (Routed.update_user id body) c s h);
  }
  jwt_mux-IsQuiet (Routed.delete_user id) c h = record {
    at = λ s. turned_away s _ (jwt_mux-TurnedAway all (Routed.delete_user id) c s h);
  }
  jwt_mux-IsQuiet (Routed.overview id q) c h =
      on_store-IsQuiet _ (overview-IsQuiet all.analytics reads _ _ id q)
  jwt_mux-IsQuiet (Routed.events id q) c h =
      on_store-IsQuiet _ (events-IsQuiet all.analytics reads _ _ id q)
  jwt_mux-IsQuiet (Routed.event_properties id name q) c h =
      on_store-IsQuiet _ (event_properties-IsQuiet all.analytics reads _ _ id q name)
  jwt_mux-IsQuiet (Routed.devices id q) c h =
      on_store-IsQuiet _ (devices-IsQuiet all.analytics reads _ _ id q)
  jwt_mux-IsQuiet (Routed.geo id q) c h =
      on_store-IsQuiet _ (geo-IsQuiet all.analytics reads _ _ id q)
  jwt_mux-IsQuiet (Routed.users id q) c h =
      on_store-IsQuiet _ (users-IsQuiet all.analytics reads _ _ id q)
  jwt_mux-IsQuiet (Routed.retention id q) c h =
      on_store-IsQuiet _ (retention-IsQuiet all.analytics reads _ _ id q)
  jwt_mux-IsQuiet _ c h = search route_rules

  jwt_auth-IsQuiet :
      (r : Request) (route : Routed)
      → is_admin (claims_of all r) ≡ false
      → IsQuiet database
          (jwt_auth all.crypto all.jwt_secret r.jwt_now r.authorization (jwt_mux all route))
  unfolding jwt_auth
  jwt_auth-IsQuiet r route h = record {
    at = λ s. elim (Bool-cases (has_prefix r.authorization (lit "Bearer "))) [
      | inr e ↦ rw e (λ id. refl)
      | inl e ↦
          elim (Option-cases (
            validate_jwt all.crypto all.jwt_secret r.jwt_now
              (trim_prefix r.authorization (lit "Bearer ")))) [
                | inl n ↦ rw (e, n) (λ id. refl)
                | inr (c, v) ↦ rw (e, v) ((jwt_mux-IsQuiet route c (rw (e, v) at h)).at s)
              ]
    ];
  }

  tracking_mux-IsQuiet :
      (method : Str) (route : Tracked) (project_id : ℤ)
      → IsQuiet itself (tracking_mux all method route project_id)
  unfolding tracking_mux
  tracking_mux-IsQuiet method (Tracked.track peer body) project_id =
      search (quiet_rules, track-IsQuiet)
  tracking_mux-IsQuiet method (Tracked.device body) project_id =
      search (quiet_rules, device-IsQuiet)
  tracking_mux-IsQuiet method (Tracked.identify body) project_id =
      search (quiet_rules, identify-IsQuiet)

  token-IsQuiet :
      (token : Str) → IsQuiet database (on_store (all.store.get_project_token_by_token token))
  token-IsQuiet token = record { at = λ s. (get_project_token_by_token-IsQuiet token).at s.auth.db }

  tracked-IsQuiet : (r : Request) (route : Tracked) → IsQuiet database (tracked all r route)
  unfolding tracked
  tracked-IsQuiet r route =
      search
        (
          cors-IsQuiet, token_auth-IsQuiet, token-IsQuiet, limit_tracking-IsQuiet, on_store-IsQuiet,
          tracking_mux-IsQuiet,
        )
        depth 30

  on_console-IsQuiet :
      (h : Option ConsoleHandler) (answer : ConsoleHandler → Response)
      → IsQuiet database (on_console all h answer)
  on_console-IsQuiet none answer = respond-IsQuiet database _
  on_console-IsQuiet (some h) answer = respond-IsQuiet database _

  mux-IsQuiet :
      (r : Request) (endpoint : Endpoint)
      → is_admin (claims_of all r) ≡ false
      → IsQuiet database (mux all r endpoint)
  unfolding mux
  mux-IsQuiet r Endpoint.health h = on_store-IsQuiet _ (health-IsQuiet _ _)
  mux-IsQuiet r (Endpoint.tracking route) h = tracked-IsQuiet r route
  mux-IsQuiet r (Endpoint.login clock body) h =
      limit_login-IsQuiet _ r.arrival _ (on_auth-IsQuiet _ (login-IsQuiet _ _ clock body))
  mux-IsQuiet r (Endpoint.jwt route) h = jwt_auth-IsQuiet r route h
  mux-IsQuiet r Endpoint.robots_txt h = on_console-IsQuiet _ _
  mux-IsQuiet r Endpoint.console_login h = on_console-IsQuiet _ _
  mux-IsQuiet r (Endpoint.console_page p) h = on_console-IsQuiet _ _
  mux-IsQuiet r (Endpoint.static_file path) h = on_console-IsQuiet _ _
  mux-IsQuiet r (Endpoint.unmatched answer) h = respond-IsQuiet database answer

  -- On SQLite, a request to any endpoint whose bearer token is not a valid one of an administrator
  -- leaves every console user who he is: the row that is found by an id has the name, the email and
  -- the role that it had, and no id is added or lost, whichever statements fail.
  pub serve_keeps_identities :
      (r : Request) (s : ServerState Db) (log : List LogLine)
      → is_admin (claims_of all r) ≡ false
      → SameIdentities s.auth.db (serve all r (s, log)).0.0.auth.db
  serve_keeps_identities r s log h =
      subst (λ (t : ServerState Db). SameIdentities s.auth.db t.auth.db)
        (sym (serve_state all r s log)) ((mux-IsQuiet r r.endpoint h).at s)
