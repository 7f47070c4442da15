-- ===== src/Handler/Tracking.antt =====
-- internal/handler/tracking.go: `Track`, `Device` and `Identify`.
pub mod Accepted
pub mod Later
pub mod Replay
pub mod Ingest
pub mod Request
use oximetric.Base.{
  ℕ, ◌+◌, ℤ, Str, lit, Bool, true, false, not, ◌||◌, List, [], ◌∷◌, Option, none, some, ◌==◌,
  str_eq, ltb, if◌then◌else◌, is_empty, length, take,
}
use oximetric.Model.{
  Time, Float64, Device, Event, EventProperty, JsonValue, TrackPropertyValue, TrackEventRequest,
  TrackRequest, DeviceRequest, IdentifyRequest, AppUser,
}
use oximetric.Storage.Store.{Store, Result, ok, err}
use oximetric.Http.{
  Body, Step, Handler, H, ◌>>=◌, ◌>>◌, respond, require, or_respond, try, pure, write_json,
  write_status, bad_request, internal_error,
}
use oximetric.Geoip.Resolver.{Location}
use oximetric.Handler.Client.{Peer, client_ip_trusted}
pub use oximetric.Handler.Properties.{Runtime, build_properties}

abbrev pub max_events_per_batch : ℕ
max_events_per_batch = 100

abbrev pub max_properties_per_event : ℕ
max_properties_per_event = 50

abbrev pub max_event_name_len : ℕ
max_event_name_len = 256

-- The guards that make the loop `continue`.
unfoldable pub is_trackable : TrackEventRequest → Bool
is_trackable ev = not (
    is_empty ev.id
    || is_empty ev.name
    || ltb max_event_name_len (length ev.name)
    || ltb max_properties_per_event (length ev.properties))

-- What the loop of `Track` knows of the request.
pub record Batch : Type 0 where
  pub project_id : ℤ
  pub device_id : Str
  pub user_id : Option ℤ
  pub ip : Str
  pub location : Location

abbrev pub batch_event : Batch → TrackEventRequest → Event
batch_event b ev = record {
  id = ev.id;
  project_id = b.project_id;
  device_id = b.device_id;
  user_id = b.user_id;
  name = ev.name;
  timestamp = ev.timestamp;
  ip_address = b.ip;
  country = b.location.country;
  city = b.location.city;
  created_at = 0;
}

pub locate : Option (Str → Location) → Str → Location
locate none ip = record { country = []; city = [] }
locate (some lookup) ip = lookup ip

module _ (store : Store) (rt : Runtime) where
  open store use {
    S, insert_event, insert_event_properties, get_device_user_id, upsert_device,
    get_or_create_app_user, link_device_to_user,
  }

  -- What follows the insertion: the properties' own result is not looked at.
  unfoldable pub after_insert : TrackEventRequest → S × Result Bool → S × ℕ
  unfolding build_properties
  after_insert ev (s, ok true) =
      if is_empty ev.properties
      then (s, 1)
      else ((insert_event_properties (build_properties rt ev.id ev.properties) s).0, 1)
  after_insert ev (s, ok false) = (s, 0)
  after_insert ev (s, err e) = (s, 0)

  -- One round of the loop, with what it adds to `accepted`.
  unfoldable pub track_event : Batch → TrackEventRequest → S → S × ℕ
  unfolding after_insert is_trackable
  track_event b ev s =
      if is_trackable ev then after_insert ev (insert_event (batch_event b ev) s) else (s, 0)

  unfoldable pub track_loop : Batch → List TrackEventRequest → ℕ → S → S × ℕ
  unfolding track_event
  track_loop b [] accepted s = (s, accepted)
  track_loop b (ev ∷ rest) accepted s =
      let (s', n) = track_event b ev s in track_loop b rest (accepted + n) s'

  -- The fallback to the device's user; an error is a missing user.
  unfoldable pub batch_user : TrackRequest → S → S × Option ℤ
  batch_user req s = elim req.user_id [
    | some user ↦ (s, some user)
    | none ↦
        let (s', found) = get_device_user_id req.device_id s in
        (s', elim found [ ok user ↦ user | err e ↦ none ])
  ]

  abbrev pub run_loop : ℤ → Str → TrackRequest → S → S × ℕ
  run_loop project_id ip req s =
      let (s', user) = batch_user req s in
      track_loop
        (record {
          project_id = project_id;
          device_id = req.device_id;
          user_id = user;
          ip = ip;
          location = locate rt.geo ip;
        })
        req.events 0 s'

  -- A part of a handler that always goes on.
  abbrev pub always {ℓ} : {A : Type ℓ} → S × A → S × Step A
  always (s, a) = (s, Step.go a)

  -- The checks of the request, before any call of the store.
  abbrev pub checked : Option TrackRequest → H S TrackRequest
  checked body = do
    req ← or_respond body (bad_request (lit "invalid request body"))
    require (not (is_empty req.device_id)) (bad_request (lit "device_id is required"))
    require (not (is_empty req.events)) (bad_request (lit "events array is empty"))
    require (not (ltb max_events_per_batch (length req.events)))
        (bad_request (lit "max 100 events per batch"))
    pure req

  unfoldable pub track : List Str → ℤ → Peer → Option TrackRequest → Handler S
  unfolding track_loop batch_user locate
  track trusted_proxies project_id peer body = do
    req ← checked body
    accepted ← λ s. always (run_loop project_id (client_ip_trusted trusted_proxies peer) req s)
    respond (write_json 202 (Body.accepted accepted))

  abbrev pub new_device : ℤ → DeviceRequest → Device
  new_device project_id req = record {
    id = req.device_id;
    project_id = project_id;
    user_id = none;
    platform = req.platform;
    os_version = req.os_version;
    app_version = req.app_version;
    locale = req.locale;
    first_seen_at = 0;
    last_seen_at = 0;
  }

  unfoldable pub device : ℤ → Option DeviceRequest → Handler S
  device project_id body = do
    req ← or_respond body (bad_request (lit "invalid request body"))
    require (not (is_empty req.device_id || is_empty req.platform))
        (bad_request (lit "device_id and platform are required"))
    try (upsert_device (new_device project_id req))
        (internal_error (lit "failed to register device"))
    respond (write_status 200)

  unfoldable pub identify : ℤ → Option IdentifyRequest → Handler S
  identify project_id body = do
    req ← or_respond body (bad_request (lit "invalid request body"))
    require (not (is_empty req.device_id || is_empty req.anonymous_id))
        (bad_request (lit "device_id and anonymous_id are required"))
    user ←
        try (get_or_create_app_user project_id req.anonymous_id)
          (internal_error (lit "failed to create user"))
    try (link_device_to_user req.device_id user.id) (internal_error (lit "failed to link device"))
    respond (write_json 200 (Body.identified user.id))
