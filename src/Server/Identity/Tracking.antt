-- ===== src/Server/Identity/Tracking.antt =====
-- The tracking routes, the login and the health check leave the identities alone.
use oximetric.Base.{
  ℕ, ◌+◌, ℤ, Str, Bool, true, false, List, [], ◌∷◌, Option, none, some, ◌∙◌, is_empty, Bool-cases,
  Option-cases, refl, inl, inr,
}
use oximetric.Model.{TrackEventRequest, TrackRequest, DeviceRequest, IdentifyRequest, LoginRequest}
use oximetric.Storage.Store.{Result, ok, err}
use oximetric.Storage.Schema.{Db}
use oximetric.Storage.Sqlite.Whole.{sqlite}
use oximetric.Storage.Sqlite.Users.{get_console_user_by_login}
use oximetric.Auth.{Crypto, validate_totp_code}
use oximetric.Handler.Client.{Peer}
use oximetric.Handler.Tracking.{
  Runtime, Batch, batch_event, after_insert, track_event, track_loop, batch_user, build_properties,
  is_trackable, always, run_loop, track, device, identify,
}
use oximetric.Handler.Login.{
  AuthState, LoginClock, on_db, check_totp_limit, check_second_factor, login,
}
use oximetric.Handler.Health.{health}
use oximetric.Server.Identity.{SameIdentities, IsQuiet, itself, quiet_rules}
use oximetric.Server.Identity.Calls.{
  bare-IsQuiet, upsert_device-IsQuiet, link_device_to_user-IsQuiet, get_device_user_id-IsQuiet,
  get_or_create_app_user-IsQuiet, insert_event-IsQuiet, insert_event_properties-IsQuiet,
  get_console_user_by_login-IsQuiet,
}

pub health-IsQuiet :
    (geoip_open : Bool) (version : Str) → IsQuiet itself (health sqlite geoip_open version)
unfolding health
health-IsQuiet geoip_open version = record { at = λ s. bare-IsQuiet.at s }

module _ (rt : Runtime) where
  after_insert-same :
      (ev : TrackEventRequest) (s : Db) (done : Db × Result Bool)
      → SameIdentities s done.0
      → SameIdentities s (after_insert sqlite rt ev done).0
  unfolding after_insert
  after_insert-same ev s (d, ok false) h = h
  after_insert-same ev s (d, err e) h = h
  after_insert-same ev s (d, ok true) h = elim (Bool-cases (is_empty ev.properties)) [
    | inl e ↦ rw e h
    | inr e ↦ rw e (λ id.
        (insert_event_properties-IsQuiet (build_properties rt ev.id ev.properties)).at d id ∙ h id)
  ]

  track_event-IsQuiet :
      (b : Batch) (ev : TrackEventRequest) → IsQuiet itself (track_event sqlite rt b ev)
  unfolding track_event
  track_event-IsQuiet b ev = record {
    at = λ s. elim (Bool-cases (is_trackable ev)) [
      | inl e ↦ rw e (after_insert-same ev s _ ((insert_event-IsQuiet (batch_event b ev)).at s))
      | inr e ↦ rw e (λ id. refl)
    ];
  }

  track_loop-IsQuiet :
      (b : Batch) (evs : List TrackEventRequest) (n : ℕ)
      → IsQuiet itself (track_loop sqlite rt b evs n)
  unfolding track_loop
  track_loop-IsQuiet b [] n = record { at = λ s id. refl }
  track_loop-IsQuiet b (ev ∷ evs) n = record {
    at = λ s id.
        (track_loop-IsQuiet b evs (n + (track_event sqlite rt b ev s).1)).at
          (track_event sqlite rt b ev s).0 id
        ∙ (track_event-IsQuiet b ev).at s id;
  }

  batch_user-IsQuiet : (req : TrackRequest) → IsQuiet itself (batch_user sqlite rt req)
  unfolding batch_user
  batch_user-IsQuiet req = record {
    at = λ s. elim (Option-cases req.user_id) [
      | inl e ↦ rw e ((get_device_user_id-IsQuiet req.device_id).at s)
      | inr (u, e) ↦ rw e (λ id. refl)
    ];
  }

  module _ (project_id : ℤ) where
    run_loop-IsQuiet :
        (ip : Str) (req : TrackRequest)
        → IsQuiet itself (λ s. always sqlite rt (run_loop sqlite rt project_id ip req s))
    run_loop-IsQuiet ip req = record {
      at = λ s id.
          (track_loop-IsQuiet _ req.events 0).at (batch_user sqlite rt req s).0 id
          ∙ (batch_user-IsQuiet req).at s id;
    }

    pub track-IsQuiet :
        (proxies : List Str) (peer : Peer) (body : Option TrackRequest)
        → IsQuiet itself (track sqlite rt proxies project_id peer body)
    unfolding track
    track-IsQuiet proxies peer body = search (quiet_rules, run_loop-IsQuiet) depth 30

    pub device-IsQuiet :
        (body : Option DeviceRequest) → IsQuiet itself (device sqlite rt project_id body)
    unfolding device
    device-IsQuiet body = search (quiet_rules, upsert_device-IsQuiet) depth 30

    pub identify-IsQuiet :
        (body : Option IdentifyRequest) → IsQuiet itself (identify sqlite rt project_id body)
    unfolding identify
    identify-IsQuiet body =
        search (quiet_rules, get_or_create_app_user-IsQuiet, link_device_to_user-IsQuiet) depth 30

abbrev pub db_of : AuthState Db → Db
db_of s = s.db

module _ (crypto : Crypto) (jwt_secret : Str) where
  on_db-IsQuiet : (name : Str) → IsQuiet db_of (on_db (get_console_user_by_login name))
  on_db-IsQuiet name = record { at = λ s. (get_console_user_by_login-IsQuiet name).at s.db }

  check_second_factor-IsQuiet :
      (clock : LoginClock) (req : LoginRequest) (secret : Option Str)
      → IsQuiet db_of (check_second_factor sqlite crypto jwt_secret clock req secret)
  unfolding check_second_factor
  check_second_factor-IsQuiet clock req none = record { at = λ s id. refl }
  check_second_factor-IsQuiet clock req (some secret) = record {
    at = λ s. elim (Bool-cases (is_empty req.totp_code)) [
      | inl e ↦ rw e (λ id. refl)
      | inr e ↦ elim (Bool-cases (check_totp_limit req.login clock.at_check s.totp_attempts)) [
        | inr l ↦ rw (e, l) (λ id. refl)
        | inl l ↦
            elim (Bool-cases (validate_totp_code crypto clock.at_validate secret req.totp_code)) [
              | inl v ↦ rw (e, l, v) (λ id. refl)
              | inr v ↦ rw (e, l, v) (λ id. refl)
            ]
      ]
    ];
  }

  pub login-IsQuiet :
      (clock : LoginClock) (body : Option LoginRequest)
      → IsQuiet db_of (login sqlite crypto jwt_secret clock body)
  unfolding login
  login-IsQuiet clock body =
      search (quiet_rules, on_db-IsQuiet, check_second_factor-IsQuiet) depth 30
