-- ===== src/Storage/Postgres/Analytics.antt =====
-- The analytics queries of postgres.go: those of sqlite.go, with date_trunc for the periods,
-- a comparison of instants for the range, and what TIMESTAMPTZ keeps of a time.
use oximetric.Base.{ℕ, ℤ, Str}
use oximetric.Model.{Moment}
use oximetric.Model.Analytics.{
  AnalyticsOverview, EventsAnalytics, PropertyAnalytics, DevicesAnalytics, GeoAnalytics,
  UsersAnalytics, RetentionAnalytics,
}
use oximetric.Storage.Store.{Result}
use oximetric.Storage.Analytics.{AnalyticsStore}
use oximetric.Storage.Analytics.Sorting.{Engine}
use oximetric.Storage.Analytics.Queries.{pg_dialect}
use oximetric.Storage.Analytics.Queries as Queries
use oximetric.Storage.Postgres.{PgDb, on_tables}

module _ (engine : Engine) where
  unfoldable pub get_overview : ℤ → Moment → Moment → PgDb → PgDb × Result AnalyticsOverview
  get_overview id from to = on_tables (Queries.get_overview engine (pg_dialect engine) id from to)

  unfoldable pub get_events_analytics :
      ℤ → Moment → Moment → Str → ℕ → ℕ → PgDb → PgDb × Result EventsAnalytics
  get_events_analytics id from to interval limit offset =
      on_tables
        (Queries.get_events_analytics engine (pg_dialect engine) id from to interval limit offset)

  unfoldable pub get_event_properties :
      ℤ → Str → Moment → Moment → ℕ → ℕ → PgDb → PgDb × Result PropertyAnalytics
  get_event_properties id name from to limit offset =
      on_tables
        (Queries.get_event_properties engine (pg_dialect engine) id from to name limit offset)

  unfoldable pub get_devices_analytics : ℤ → Moment → Moment → PgDb → PgDb × Result DevicesAnalytics
  get_devices_analytics id from to =
      on_tables (Queries.get_devices_analytics engine (pg_dialect engine) id from to)

  unfoldable pub get_geo_analytics : ℤ → Moment → Moment → ℕ → ℕ → PgDb → PgDb × Result GeoAnalytics
  get_geo_analytics id from to limit offset =
      on_tables (Queries.get_geo_analytics engine (pg_dialect engine) id from to limit offset)

  unfoldable pub get_users_analytics :
      ℤ → Moment → Moment → Str → PgDb → PgDb × Result UsersAnalytics
  get_users_analytics id from to interval =
      on_tables (Queries.get_users_analytics engine (pg_dialect engine) id from to interval)

  unfoldable pub get_retention_analytics :
      ℤ → Moment → Moment → PgDb → PgDb × Result RetentionAnalytics
  get_retention_analytics id from to =
      on_tables (Queries.get_retention_analytics engine (pg_dialect engine) id from to)

  abbrev pub pg_analytics : AnalyticsStore PgDb
  pg_analytics = record {
    get_overview = get_overview;
    get_events_analytics = get_events_analytics;
    get_event_properties = get_event_properties;
    get_devices_analytics = get_devices_analytics;
    get_geo_analytics = get_geo_analytics;
    get_users_analytics = get_users_analytics;
    get_retention_analytics = get_retention_analytics;
  }
