-- ===== src/Handler/Analytics.antt =====
-- internal/handler/analytics.go, and `parseAnalyticsParams` of internal/handler/handler.go.
-- Parameters: the clock, `AddDate(0, 0, -30)` and the parsing of RFC 3339 times. A query parameter
-- that is missing is the empty text.
pub mod Params
use oximetric.Base.{
  ℕ, ℤ, pos, negsuc, Str, lit, Bool, true, false, ◌&&◌, Option, none, some, atoi, is_empty, leb,
  ltb, if◌then◌else◌,
}
use oximetric.Model.{Moment}
use oximetric.Storage.Analytics.{AnalyticsStore}
use oximetric.Http.{
  Body, H, Handler, ◌>>=◌, or_respond, respond, try, write_json, bad_request, internal_error,
}

pub record AnalyticsParams : Type 0 where
  pub from : Moment
  pub to : Moment
  pub interval : Str
  pub limit : ℕ
  pub offset : ℕ

-- The request's query, and the two readings of the clock.
pub record Query : Type 0 where
  pub from : Str
  pub to : Str
  pub interval : Str
  pub limit : Str
  pub offset : Str
  pub first_now : Moment
  pub second_now : Moment

-- `if n, err := strconv.Atoi(v); err == nil && n > 0 && n <= 1000 { p.Limit = n }`
abbrev pub limit_or : ℕ → Option ℤ → ℕ
limit_or old (some (pos n)) = if ltb 0 n && leb n 1000 then n else old
limit_or old _ = old

-- `if n, err := strconv.Atoi(v); err == nil && n >= 0 { p.Offset = n }`
abbrev pub offset_or : ℕ → Option ℤ → ℕ
offset_or old (some (pos n)) = n
offset_or old _ = old

abbrev pub time_or : Moment → Option Moment → Moment
time_or old none = old
time_or old (some t) = t

module _ (thirty_days_before : Moment → Moment) (parse_rfc3339 : Str → Option Moment) where
  unfoldable pub parse_analytics_params : Query → AnalyticsParams
  parse_analytics_params q = record {
    from =
        (if is_empty q.from
          then thirty_days_before q.first_now
          else time_or (thirty_days_before q.first_now) (parse_rfc3339 q.from));
    to = (if is_empty q.to then q.second_now else time_or q.second_now (parse_rfc3339 q.to));
    interval = (if is_empty q.interval then lit "day" else q.interval);
    limit = (if is_empty q.limit then 50 else limit_or 50 (atoi q.limit));
    offset = (if is_empty q.offset then 0 else offset_or 0 (atoi q.offset));
  }

  -- Every route reads the project's id from the path, then the parameters, and asks the store.
  module _ {S : Type 0} (store : AnalyticsStore S) (path_id : Str) (q : Query) where
    open store use {
      get_overview, get_events_analytics, get_event_properties, get_devices_analytics,
      get_geo_analytics, get_users_analytics, get_retention_analytics,
    }

    abbrev project_of : H S ℤ
    project_of = or_respond (atoi path_id) (bad_request (lit "invalid project_id"))

    unfoldable pub overview : Handler S
    unfolding parse_analytics_params
    overview = do
      id ← project_of
      let p = parse_analytics_params q
      result ← try (get_overview id p.from p.to) (internal_error (lit "failed to get overview"))
      respond (write_json 200 (Body.overview result))

    unfoldable pub events : Handler S
    unfolding parse_analytics_params
    events = do
      id ← project_of
      let p = parse_analytics_params q
      result ←
          try (get_events_analytics id p.from p.to p.interval p.limit p.offset)
            (internal_error (lit "failed to get events analytics"))
      respond (write_json 200 (Body.event_counts result))

    unfoldable pub event_properties : Str → Handler S
    unfolding parse_analytics_params
    event_properties name = do
      id ← project_of
      let p = parse_analytics_params q
      result ←
          try (get_event_properties id name p.from p.to p.limit p.offset)
            (internal_error (lit "failed to get event properties"))
      respond (write_json 200 (Body.property_counts result))

    unfoldable pub devices : Handler S
    unfolding parse_analytics_params
    devices = do
      id ← project_of
      let p = parse_analytics_params q
      result ←
          try (get_devices_analytics id p.from p.to)
            (internal_error (lit "failed to get devices analytics"))
      respond (write_json 200 (Body.device_counts result))

    unfoldable pub geo : Handler S
    unfolding parse_analytics_params
    geo = do
      id ← project_of
      let p = parse_analytics_params q
      result ←
          try (get_geo_analytics id p.from p.to p.limit p.offset)
            (internal_error (lit "failed to get geo analytics"))
      respond (write_json 200 (Body.geo_counts result))

    unfoldable pub users : Handler S
    unfolding parse_analytics_params
    users = do
      id ← project_of
      let p = parse_analytics_params q
      result ←
          try (get_users_analytics id p.from p.to p.interval)
            (internal_error (lit "failed to get users analytics"))
      respond (write_json 200 (Body.user_counts result))

    unfoldable pub retention : Handler S
    unfolding parse_analytics_params
    retention = do
      id ← project_of
      let p = parse_analytics_params q
      result ←
          try (get_retention_analytics id p.from p.to)
            (internal_error (lit "failed to get retention analytics"))
      respond (write_json 200 (Body.cohorts result))
