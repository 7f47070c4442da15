-- ===== src/Server/Identity/Analytics.antt =====
-- The analytics routes leave the identities alone, over a store that only reads.
use oximetric.Base.{ℕ, ℤ, Str, Option, ap}
use oximetric.Model.{Moment}
use oximetric.Storage.Schema.{Db}
use oximetric.Storage.Analytics.{AnalyticsStore}
use oximetric.Storage.Analytics.Reads.{SameTables, IsReading}
use oximetric.Handler.Users.Own.{row_of}
use oximetric.Handler.Analytics.{
  Query, overview, events, event_properties, devices, geo, users, retention,
}
use oximetric.Server.Identity.{identity, IsQuiet, itself, quiet_rules}

reading {ℓ} :
    {A : Type ℓ} (call : Db → Db × A) → ((s : Db) → SameTables s (call s).0) → IsQuiet itself call
reading call h = record { at = λ s id. ap (λ (t : Db). identity (row_of id t)) (h s) }

module _ (store : AnalyticsStore Db) (reads : IsReading store) where
  get_overview-IsQuiet :
      (id : ℤ) (from to : Moment) → IsQuiet itself (store.get_overview id from to)
  get_overview-IsQuiet id from to =
      reading (store.get_overview id from to) (reads.overview id from to)

  get_events_analytics-IsQuiet :
      (id : ℤ) (from to : Moment) (interval : Str) (limit offset : ℕ)
      → IsQuiet itself (store.get_events_analytics id from to interval limit offset)
  get_events_analytics-IsQuiet id from to interval limit offset =
      reading (store.get_events_analytics id from to interval limit offset)
        (reads.events id from to interval limit offset)

  get_event_properties-IsQuiet :
      (id : ℤ) (name : Str) (from to : Moment) (limit offset : ℕ)
      → IsQuiet itself (store.get_event_properties id name from to limit offset)
  get_event_properties-IsQuiet id name from to limit offset =
      reading (store.get_event_properties id name from to limit offset)
        (reads.properties id name from to limit offset)

  get_devices_analytics-IsQuiet :
      (id : ℤ) (from to : Moment) → IsQuiet itself (store.get_devices_analytics id from to)
  get_devices_analytics-IsQuiet id from to =
      reading (store.get_devices_analytics id from to) (reads.devices id from to)

  get_geo_analytics-IsQuiet :
      (id : ℤ) (from to : Moment) (limit offset : ℕ)
      → IsQuiet itself (store.get_geo_analytics id from to limit offset)
  get_geo_analytics-IsQuiet id from to limit offset =
      reading (store.get_geo_analytics id from to limit offset) (reads.geo id from to limit offset)

  get_users_analytics-IsQuiet :
      (id : ℤ) (from to : Moment) (interval : Str)
      → IsQuiet itself (store.get_users_analytics id from to interval)
  get_users_analytics-IsQuiet id from to interval =
      reading (store.get_users_analytics id from to interval) (reads.users id from to interval)

  get_retention_analytics-IsQuiet :
      (id : ℤ) (from to : Moment) → IsQuiet itself (store.get_retention_analytics id from to)
  get_retention_analytics-IsQuiet id from to =
      reading (store.get_retention_analytics id from to) (reads.retention id from to)

  module _ (thirty_days_before : Moment → Moment) (parse_rfc3339 : Str → Option Moment) (id : Str)
      (q : Query) where
    pub overview-IsQuiet : IsQuiet itself (overview thirty_days_before parse_rfc3339 store id q)
    unfolding overview
    overview-IsQuiet = search (quiet_rules, get_overview-IsQuiet) depth 30

    pub events-IsQuiet : IsQuiet itself (events thirty_days_before parse_rfc3339 store id q)
    unfolding events
    events-IsQuiet = search (quiet_rules, get_events_analytics-IsQuiet) depth 30

    pub event_properties-IsQuiet :
        (name : Str)
        → IsQuiet itself (event_properties thirty_days_before parse_rfc3339 store id q name)
    unfolding event_properties
    event_properties-IsQuiet name = search (quiet_rules, get_event_properties-IsQuiet) depth 30

    pub devices-IsQuiet : IsQuiet itself (devices thirty_days_before parse_rfc3339 store id q)
    unfolding devices
    devices-IsQuiet = search (quiet_rules, get_devices_analytics-IsQuiet) depth 30

    pub geo-IsQuiet : IsQuiet itself (geo thirty_days_before parse_rfc3339 store id q)
    unfolding geo
    geo-IsQuiet = search (quiet_rules, get_geo_analytics-IsQuiet) depth 30

    pub users-IsQuiet : IsQuiet itself (users thirty_days_before parse_rfc3339 store id q)
    unfolding users
    users-IsQuiet = search (quiet_rules, get_users_analytics-IsQuiet) depth 30

    pub retention-IsQuiet : IsQuiet itself (retention thirty_days_before parse_rfc3339 store id q)
    unfolding retention
    retention-IsQuiet = search (quiet_rules, get_retention_analytics-IsQuiet) depth 30
