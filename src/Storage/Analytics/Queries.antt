-- ===== src/Storage/Analytics/Queries.antt =====
-- The analytics methods themselves, of sqlite.go and of postgres.go.
use oximetric.Base.{
  Option, ℕ, ℤ, Str, List, [], ◌∷◌, ◌==◌, int_eq, str_eq, option_eq, pair_eq, keep, Eq, length,
  take, group_count, page,
}
use oximetric.Model.{Time, Moment, AppUser, Device, EventProperty}
use oximetric.Model.Analytics.{
  AnalyticsOverview, EventsAnalytics, ColumnValue, value_eq, PropertyBreakdown, PropertyAnalytics,
  DevicesAnalytics, GeoAnalytics, UsersAnalytics, RetentionAnalytics,
}
use oximetric.Storage.Store.{Result, ok}
use oximetric.Storage.Schema.{EventRow, Db}
use oximetric.Storage.Analytics.Sorting.{Window, Dialect, Engine}
use oximetric.Storage.Analytics.{
  AnalyticsStore, sqlite_in_range, pg_in_range, property_value_column, cell, sqlite_date_format,
  pg_date_trunc, by_period, query, or_zero, then_query, events_between, devices_between,
  users_between, properties_between, event_count, country_count, city_count, point, platform_count,
  property_value, scan,
}

module _ (engine : Engine) (dialect : Dialect) where
  open engine use {descending, any_order}
  open dialect use {period_of}

  -- `SELECT key, COUNT(*) as cnt … GROUP BY key ORDER BY cnt DESC`
  unfoldable pub ranked : {A K : Type 0} ⦃e : Eq K⦄ → Window → (A → K) → List A → List (K × ℕ)
  ranked w key rows = descending w (λ g. g.1) (group_count key rows)

  -- `SELECT period, COUNT(*) … GROUP BY period ORDER BY period`
  unfoldable pub series : {A : Type 0} → (A → Time) → Str → List A → List (Str × ℕ)
  series time interval rows = by_period (group_count (λ a. period_of interval (time a)) rows)

  module _ (project_id : ℤ) (from to : Moment) where
    abbrev rows_of : Db → List EventRow
    rows_of = events_between dialect project_id from to

    unfoldable pub get_overview : Db → Db × Result AnalyticsOverview
    get_overview db =
        let (db1, devices) =
          or_zero 0
            (query (λ d. length (group_count (λ (e : EventRow). e.device_id) (rows_of d))) db) in
        let (db2, events) = or_zero 0 (query (λ d. length (rows_of d)) db1) in
        let (db3, names) = or_zero [] (
          query
            (λ d. page 10 0 (ranked (Window.window 10 0) (λ (e : EventRow). e.name) (rows_of d)))
            db2) in
        let (db4, countries) = or_zero [] (
          query
            (λ d. page 10 0 (ranked (Window.window 10 0) (λ (e : EventRow). e.country) (rows_of d)))
            db3) in
        (
          db4,
          ok (record {
            active_devices = devices;
            total_events = events;
            top_events = scan event_count names;
            top_countries = scan country_count countries;
          }),
        )

    unfoldable pub get_events_analytics : Str → ℕ → ℕ → Db → Db × Result EventsAnalytics
    get_events_analytics interval limit offset db =
        then_query
          (query
            (λ d.
              page limit offset
                (ranked (Window.window limit offset) (λ (e : EventRow). e.name) (rows_of d)))
            db)
          (λ names db1.
            let (db2, points) =
              or_zero []
                (query (λ d. series (λ (e : EventRow). e.created_at) interval (rows_of d)) db1) in
            (db2, ok (record { events = scan event_count names; time_series = scan point points })))

    unfoldable pub get_devices_analytics : Db → Db × Result DevicesAnalytics
    get_devices_analytics db =
        then_query
          (query
            (λ d.
              ranked Window.whole (λ (v : Device). v.platform)
                (devices_between dialect project_id from to d))
            db)
          (λ platforms db1. (db1, ok (record { platforms = scan platform_count platforms })))

    -- The second query of `GetGeoAnalytics`.
    abbrev pub with_cities : ℕ → ℕ → List (Option Str × ℕ) → Db → Db × Result GeoAnalytics
    with_cities limit offset countries db =
        then_query
          (query
            (λ d. page limit offset (
              ranked (Window.window limit offset) (λ (e : EventRow). (e.city, e.country))
                (rows_of d)))
            db)
          (λ cities db1. (
            db1,
            ok (record {
              countries = scan country_count countries;
              cities = scan city_count cities;
            }),
          ))

    unfoldable pub get_geo_analytics : ℕ → ℕ → Db → Db × Result GeoAnalytics
    get_geo_analytics limit offset db =
        then_query
          (query
            (λ d.
              page limit offset
                (ranked (Window.window limit offset) (λ (e : EventRow). e.country) (rows_of d)))
            db)
          (with_cities limit offset)

    unfoldable pub get_users_analytics : Str → Db → Db × Result UsersAnalytics
    get_users_analytics interval db =
        let (db1, total) = or_zero 0 (
          query (λ d. length (keep (λ (u : AppUser). u.project_id == project_id) d.app_users))
            db) in
        let (db2, points) = or_zero [] (
          query
            (λ d.
              series (λ (u : AppUser). u.created_at) interval
                (users_between dialect project_id from to d))
            db1) in
        (db2, ok (record { time_series = scan point points; total = total }))

    unfoldable pub get_retention_analytics : Db → Db × Result RetentionAnalytics
    get_retention_analytics db = (db, ok (record { cohorts = [] }))

    -- The values of one key, and how often each stands; the rows are those of the key, of any type.
    unfoldable pub value_counts : Str → Str → Str → Db → List (ColumnValue × ℕ)
    value_counts name key type d = take 20 (
        ranked (Window.window 20 0) (cell dialect (property_value_column type)) (
          keep (λ (p : EventProperty). p.key == key)
            (properties_between dialect project_id from to name d)))

    -- The inner loop: a failed query leaves the values empty.
    unfoldable pub breakdown : Str → Str × Str → Db → Db × PropertyBreakdown
    breakdown name (key, type) db =
        let (db1, values) = or_zero [] (query (value_counts name key type) db) in
        (db1, record { key = key; type = type; values = scan property_value values })

    unfoldable pub breakdowns : Str → List (Str × Str) → Db → Db × List PropertyBreakdown
    unfolding breakdown
    breakdowns name [] db = (db, [])
    breakdowns name (kt ∷ rest) db =
        let (db1, b) = breakdown name kt db in
        let (db2, bs) = breakdowns name rest db1 in (db2, b ∷ bs)

    abbrev pub property_analytics : Db × List PropertyBreakdown → Db × Result PropertyAnalytics
    property_analytics (db, bs) = (db, ok (record { properties = bs }))

    -- The rows of `SELECT DISTINCT ep.key, ep.value_type`.
    abbrev pub key_types : ℕ → ℕ → Str → Db → List (Str × Str)
    key_types limit offset name d = any_order (Window.window limit offset) (
        scan (λ g. g.0)
          (group_count (λ (p : EventProperty). (p.key, p.value_type))
            (properties_between dialect project_id from to name d)))

    unfoldable pub get_event_properties : Str → ℕ → ℕ → Db → Db × Result PropertyAnalytics
    unfolding breakdowns
    get_event_properties name limit offset db =
        then_query (query (λ d. page limit offset (key_types limit offset name d)) db)
          (λ kts db1. property_analytics (breakdowns name kts db1))

-- The queries of one database.
abbrev pub analytics : Engine → Dialect → AnalyticsStore Db
analytics engine dialect = record {
  get_overview = get_overview engine dialect;
  get_events_analytics = get_events_analytics engine dialect;
  get_event_properties =
      λ project_id name from to. get_event_properties engine dialect project_id from to name;
  get_devices_analytics = get_devices_analytics engine dialect;
  get_geo_analytics = get_geo_analytics engine dialect;
  get_users_analytics = get_users_analytics engine dialect;
  get_retention_analytics = get_retention_analytics engine dialect;
}

-- `strftime(?, created_at)` with the format of the interval.
unfoldable pub sqlite_period : Engine → Str → Time → Str
unfolding sqlite_date_format
sqlite_period engine interval t = engine.strftime (sqlite_date_format interval) t

-- `date_trunc('…', created_at)::text`
unfoldable pub pg_period : Engine → Str → Time → Str
unfolding pg_date_trunc
pg_period engine interval t = engine.date_trunc (pg_date_trunc interval) t

abbrev pub sqlite_dialect : Engine → Dialect
sqlite_dialect engine = record {
  period_of = sqlite_period engine;
  in_range = sqlite_in_range engine;
  stored = λ t. t;
}

abbrev pub pg_dialect : Engine → Dialect
pg_dialect engine = record {
  period_of = pg_period engine;
  in_range = pg_in_range;
  stored = engine.timestamptz;
}
