-- ===== src/Server/Identity/Guards.antt =====
-- A guard in front of code that leaves the identities alone leaves them alone.
use oximetric.Base.{ℕ, ℤ, Str, Bool, true, false, List, ◌≡◌, refl, ap, ◌∙◌}
use oximetric.Model.{ProjectToken}
use oximetric.Storage.Store.{Result}
use oximetric.Storage.Schema.{Db}
use oximetric.Http.{Step, Handler}
use oximetric.Middleware.Guards.{with_headers, with_origin, token_auth, cors}
use oximetric.Middleware.RateLimit.{Arrival, rate_limit}
use oximetric.Handler.Login.{AuthState}
use oximetric.Server.{ServerState, on_store, on_auth, limited, limit_tracking, limit_login}
use oximetric.Handler.Users.Own.{row_of}
use oximetric.Server.Identity.{identity, IsQuiet, itself, quiet_rules, respond-IsQuiet}
use oximetric.Server.Identity.Tracking.{db_of}

-- The database in the server's state.
abbrev pub database : ServerState Db → Db
database s = s.auth.db

pub on_store-IsQuiet : (m : Handler Db) → IsQuiet itself m → IsQuiet database (on_store m)
on_store-IsQuiet m h = record { at = λ s. h.at s.auth.db }

pub on_auth-IsQuiet : (m : Handler (AuthState Db)) → IsQuiet db_of m → IsQuiet database (on_auth m)
on_auth-IsQuiet m h = record { at = λ s. h.at s.auth }

-- The guards.
headed :
    (hs : List (Str × Str)) (done : ServerState Db × Step (Unit {0})) (s : ServerState Db)
    → (with_headers hs (λ _. done) s).0 ≡ done.0
headed hs (s', Step.go a) s = refl
headed hs (s', Step.reply r) s = refl
headed hs (s', Step.panic) s = refl

pub with_headers-IsQuiet :
    (hs : List (Str × Str)) (m : Handler (ServerState Db))
    → IsQuiet database m
    → IsQuiet database (with_headers hs m)
with_headers-IsQuiet hs m h = record {
  at = λ s id. ap (λ d. identity (row_of id (database d))) (headed hs (m s) s) ∙ h.at s id;
}

module _ (token : Str → ServerState Db → ServerState Db × Result ProjectToken) where
  with_origin-IsQuiet :
      (pt : ProjectToken) (origin : Str) (next : ℤ → Handler (ServerState Db))
      → ((id : ℤ) → IsQuiet database (next id))
      → IsQuiet database (with_origin token pt origin next)
  unfolding with_origin
  with_origin-IsQuiet pt origin next h = search (quiet_rules, with_headers-IsQuiet) depth 30

  pub token_auth-IsQuiet :
      (x_token origin : Str) (next : ℤ → Handler (ServerState Db))
      → IsQuiet database (token x_token)
      → ((id : ℤ) → IsQuiet database (next id))
      → IsQuiet database (token_auth token x_token origin next)
  unfolding token_auth
  token_auth-IsQuiet x_token origin next k h = search (quiet_rules, with_origin-IsQuiet) depth 30

pub cors-IsQuiet :
    (method origin : Str) (next : Handler (ServerState Db))
    → IsQuiet database next
    → IsQuiet database (cors method origin next)
unfolding cors
cors-IsQuiet method origin next h = search quiet_rules

limited-IsQuiet :
    (b : Bool) (next : Handler (ServerState Db))
    → IsQuiet database next
    → IsQuiet database (limited next b)
limited-IsQuiet true next h = h
limited-IsQuiet false next h = respond-IsQuiet database _

module _ (refill : ℕ → ℕ → ℕ) (a : Arrival) (next : Handler (ServerState Db)) where
  pub limit_tracking-IsQuiet :
      IsQuiet database next → IsQuiet database (limit_tracking refill a next)
  unfolding limit_tracking
  limit_tracking-IsQuiet h = record {
    at = λ s. (limited-IsQuiet (rate_limit refill 1000 a s.tracking_buckets).0 next h).at _;
  }

  pub limit_login-IsQuiet : IsQuiet database next → IsQuiet database (limit_login refill a next)
  unfolding limit_login
  limit_login-IsQuiet h = record {
    at = λ s. (limited-IsQuiet (rate_limit refill 10 a s.login_buckets).0 next h).at _;
  }
