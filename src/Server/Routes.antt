-- ===== src/Server/Routes.antt =====
-- The patterns that internal/server/server.go registers, what a request brings, and what `New` is given.
use oximetric.Base.{ℕ, Str, Bool, List, Option}
use oximetric.Model.{
  Time, Moment, TrackRequest, DeviceRequest, IdentifyRequest, LoginRequest, PasswordChangeRequest,
  TotpEnableRequest, TotpDisableRequest, CreateProjectRequest, UpdateProjectRequest,
  CreateTokenRequest, UpdateTokenRequest, CreateUserRequest, UpdateUserRequest,
}
use oximetric.Storage.Store.{Store}
use oximetric.Storage.Analytics.{AnalyticsStore}
use oximetric.Auth.{Crypto}
use oximetric.Http.{Response}
use oximetric.Middleware.RateLimit.{Arrival}
use oximetric.Handler.Client.{Peer}
use oximetric.Handler.Tracking.{Runtime}
use oximetric.Handler.Login.{LoginClock}
use oximetric.Handler.Analytics.{Query}
use oximetric.Handler.Console.{Web, ConsoleHandler}
use oximetric.Server.Pages.{ConsolePage}

-- The patterns of `trackingMux`.
pub data Tracked : Type 0 where
  track : Peer → Option TrackRequest → Tracked
  device : Option DeviceRequest → Tracked
  identify : Option IdentifyRequest → Tracked

-- The patterns of `jwtMux`; `unmatched` is a path or a method that it answers itself.
pub data Routed : Type 0 where
  logout me : Routed
  change_password : Option PasswordChangeRequest → ℕ → Routed
  totp_setup : ℕ → Routed
  totp_enable : Option TotpEnableRequest → Time → Routed
  totp_disable : Option TotpDisableRequest → Routed
  list_projects : Routed
  create_project : Option CreateProjectRequest → Routed
  update_project : Str → Option UpdateProjectRequest → Routed
  delete_project : Str → Routed
  list_tokens : Str → Routed
  create_token : Str → Option CreateTokenRequest → Option (List ℕ) → Routed
  update_token : Str → Str → Option UpdateTokenRequest → Routed
  disable_token : Str → Str → Time → Routed
  enable_token : Str → Str → Routed
  delete_token : Str → Routed
  list_users : Routed
  create_user : Option CreateUserRequest → ℕ → Routed
  update_user : Str → Option UpdateUserRequest → Routed
  delete_user : Str → Routed
  overview events devices geo users retention : Str → Query → Routed
  event_properties : Str → Str → Query → Routed
  unmatched : Response → Routed

-- The patterns of `mux`.
pub data Endpoint : Type 0 where
  health : Endpoint
  tracking : Tracked → Endpoint
  login : LoginClock → Option LoginRequest → Endpoint
  jwt : Routed → Endpoint
  robots_txt : Endpoint
  console_login : Endpoint
  console_page : ConsolePage → Endpoint
  -- with the path of the file
  static_file : Str → Endpoint
  unmatched : Response → Endpoint

-- What the guards read of a request: its headers, and the clock when the JWT is checked. The
-- header X-Token is in the arrival.
pub record Request : Type 0 where
  pub method : Str
  pub path : Str
  pub origin : Str
  pub authorization : Str
  pub arrival : Arrival
  pub jwt_now : Time
  pub endpoint : Endpoint

-- What `New` is given, with the library functions that the handlers call.
pub record Parts : Type 1 where
  pub store : Store
  pub analytics : AnalyticsStore store.S
  pub crypto : Crypto
  pub jwt_secret : Str
  pub runtime : Runtime
  pub geoip_open : Bool
  pub trusted_proxies : List Str
  pub version : Str
  pub refill : ℕ → ℕ → ℕ
  pub thirty_days_before : Moment → Moment
  pub parse_rfc3339 : Str → Option Moment
  pub url_parse : Str → Option (Str × Str)
  pub quote : Str → Str
  pub web : Web
  -- the console, if `NewConsoleHandler` gave no error
  pub console : Option ConsoleHandler
  -- ServeMux for a path of no pattern
  pub page_not_found : Response
  -- ServeMux for a method that the path's pattern does not name
  pub method_not_allowed : Response
