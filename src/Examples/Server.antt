-- ===== src/Examples/Server.antt =====
-- A server on one database, and requests with a token from the time when its user was a viewer.
use oximetric.Base.{
  Str, lit, ◌⊎◌, pos, false, [], ◌++◌, none, some, ◌≡◌, refl, str_beq, has_prefix, trim_prefix,
}
use oximetric.Storage.Schema.{Db}
use oximetric.Storage.Sqlite.Whole.{sqlite}
use oximetric.Storage.Analytics.Queries.{analytics, sqlite_dialect}
use oximetric.Auth.{Claims, validate_jwt}
use oximetric.Http.{Body, Response}
use oximetric.Server.Logged.{Replies}
use oximetric.Middleware.Guards.{rank}
use oximetric.Server.Routes.{Routed, Endpoint, Request, Parts}
use oximetric.Server.{State, ServerState, serve}
use oximetric.Server.Access.{claims_of, least_rank, is_allowed, serve-TurnedAway}
use oximetric.Server.Replies.{serve-Answers}
use oximetric.Server.Identity.{SameIdentities}
use oximetric.Server.Identity.Kept.{on_sqlite, is_admin, serve_keeps_identities}
use oximetric.Examples.Accounts.{toy, accounts, written}
use oximetric.Examples.Console.{web}
use oximetric.Examples.Tracking.{runtime}
use oximetric.Examples.Analytics.{engine}

abbrev pub parts : Parts
parts = record {
  store = sqlite;
  analytics = analytics engine (sqlite_dialect engine);
  crypto = toy;
  jwt_secret = lit "key";
  runtime = runtime;
  geoip_open = false;
  trusted_proxies = [];
  version = lit "dev";
  refill = λ elapsed limit. 0;
  thirty_days_before = λ t. t;
  parse_rfc3339 = λ s. none;
  url_parse = λ s. none;
  quote = λ s. s;
  web = web;
  console = none;
  page_not_found = record { status = 404; headers = []; body = Body.empty };
  method_not_allowed = record { status = 405; headers = []; body = Body.empty };
}

abbrev pub started : ServerState Db
started = record {
  auth = record { db = accounts; totp_attempts = [] };
  tracking_buckets = [];
  login_buckets = [];
}

abbrev viewer : Claims
viewer = record {
  user_id = pos 1;
  username = lit "root";
  role = lit "viewer";
  expires_at = 100;
  issued_at = 5;
}

-- A request for one of the routes behind the JWT.
abbrev pub request : Str → Routed → Request
request authorization route = record {
  method = lit "POST";
  path = lit "/api/v1/auth/me";
  origin = [];
  authorization = authorization;
  arrival = record {
    x_token = [];
    remote_addr = lit "10.0.0.1:5000";
    created_at = 7;
    measured_at = 7;
    stored_at = 7;
  };
  jwt_now = 7;
  endpoint = Endpoint.jwt route;
}

abbrev of_viewer : Routed → Request
of_viewer route = request (lit "Bearer " ++ written viewer) route

serve-Answers_example :
    (after : State parts) × (x : Response) × Replies parts (of_viewer Routed.me) started [] after x
serve-Answers_example = serve-Answers parts (of_viewer Routed.me) started []

viewer_refused :
    is_allowed
      (claims_of parts (of_viewer (Routed.delete_user (lit "1"))))
      (Routed.delete_user (lit "1"))
    ≡ false
unfolding is_allowed least_rank validate_jwt rank lit str_beq has_prefix trim_prefix
viewer_refused = refl

serve-TurnedAway_example :
    (x : Response) × Replies parts (of_viewer (Routed.delete_user (lit "1"))) started [] started x
    × ((x.status ≡ 401) ⊎ (x.status ≡ 403))
serve-TurnedAway_example =
    serve-TurnedAway parts (of_viewer (Routed.delete_user (lit "1"))) (Routed.delete_user (lit "1"))
      started [] refl viewer_refused

viewer_not_admin :
    is_admin (
      claims_of
        (on_sqlite parts engine (sqlite_dialect engine))
        (of_viewer (Routed.totp_disable (some (record { password = lit "p" })))))
    ≡ false
unfolding validate_jwt rank lit str_beq has_prefix trim_prefix
viewer_not_admin = refl

serve_keeps_identities_example :
    SameIdentities accounts
      (serve
        (on_sqlite parts engine (sqlite_dialect engine))
        (of_viewer (Routed.totp_disable (some (record { password = lit "p" }))))
        (started, [])).0.0.auth.db
serve_keeps_identities_example =
    serve_keeps_identities parts engine (sqlite_dialect engine)
      (of_viewer (Routed.totp_disable (some (record { password = lit "p" })))) started []
      viewer_not_admin
