-- ===== src/Storage/Analytics.antt =====
-- The analytics queries of internal/storage/sqlite.go. Those of postgres.go are the same statements,
-- but for the record Dialect, which is a parameter here: each store passes its own.
--
-- What SQL leaves open is a record: how ties in `ORDER BY cnt DESC` stand, in which order the rows of
-- `SELECT DISTINCT` come, and how a database writes a period. A query fails as a whole or returns all
-- its rows. The range of a query is a comparison of texts on SQLite, where the driver binds the text of
-- a time.Time, and of instants on PostgreSQL.
pub mod Sorting
pub mod Queries
pub mod Counts
pub mod Breakdown
pub mod Series
pub mod Range
pub mod Reads
use oximetric.Base.{
  ℕ, ℤ, Str, lit, Bool, true, false, ◌&&◌, List, [], ◌∷◌, Option, none, some, ◌==◌, int_eq, str_eq,
  option_eq, pair_eq, leb, nat_beq, if◌then◌else◌, keep, Eq, length, take, group_count, page,
}
use oximetric.Model.{Time, Moment, AppUser, Device, EventProperty}
use oximetric.Model.Analytics.{
  EventCount, CountryCount, AnalyticsOverview, TimeSeriesPoint, EventsAnalytics, ColumnValue,
  value_eq, PropertyValue, PropertyBreakdown, PropertyAnalytics, PlatformCount, DevicesAnalytics,
  CityCount, GeoAnalytics, UsersAnalytics, RetentionAnalytics,
}
use oximetric.Storage.Store.{Result, ok, err}
use oximetric.Storage.Schema.{EventRow, Db, statement, exists_row}
use oximetric.Storage.Analytics.Sorting.{Engine, Dialect}

-- The analytics methods of the interface `Store` of storage.go.
pub record AnalyticsStore (S : Type 0) : Type 0 where
  pub get_overview : ℤ → Moment → Moment → S → S × Result AnalyticsOverview
  pub get_events_analytics : ℤ → Moment → Moment → Str → ℕ → ℕ → S → S × Result EventsAnalytics
  pub get_event_properties : ℤ → Str → Moment → Moment → ℕ → ℕ → S → S × Result PropertyAnalytics
  pub get_devices_analytics : ℤ → Moment → Moment → S → S × Result DevicesAnalytics
  pub get_geo_analytics : ℤ → Moment → Moment → ℕ → ℕ → S → S × Result GeoAnalytics
  pub get_users_analytics : ℤ → Moment → Moment → Str → S → S × Result UsersAnalytics
  pub get_retention_analytics : ℤ → Moment → Moment → S → S × Result RetentionAnalytics

-- `COALESCE(column, 'Unknown')`
abbrev pub or_unknown : Option Str → Str
or_unknown none = lit "Unknown"
or_unknown (some s) = s

-- The column that the values of a type are in.
pub data Column : Type 0 where
  value_int value_float value_bool value_datetime value_string : Column

-- `propertyValueColumn`
unfoldable pub property_value_column : Str → Column
property_value_column type =
    if type == lit "int"
    then Column.value_int
    else if type == lit "float"
    then Column.value_float
    else if type == lit "bool"
    then Column.value_bool
    else if type == lit "datetime"
    then Column.value_datetime
    else Column.value_string

abbrev pub or_null {ℓ} : {A : Type ℓ} → (A → ColumnValue) → Option A → ColumnValue
or_null f none = ColumnValue.null
or_null f (some a) = f a

-- What a row holds in a column.
abbrev pub cell : Dialect → Column → EventProperty → ColumnValue
cell dialect Column.value_int p = or_null ColumnValue.integer p.value_int
cell dialect Column.value_float p = or_null ColumnValue.real p.value_float
cell dialect Column.value_bool p = or_null ColumnValue.boolean p.value_bool
cell dialect Column.value_datetime p =
    or_null (λ t. ColumnValue.datetime (dialect.stored t)) p.value_datetime
cell dialect Column.value_string p = or_null ColumnValue.text p.value_string

-- `sqliteDateFormat`
unfoldable pub sqlite_date_format : Str → Str
sqlite_date_format interval =
    if interval == lit "hour"
    then lit "%Y-%m-%d %H:00"
    else if interval == lit "week"
    then lit "%Y-W%W"
    else if interval == lit "month"
    then lit "%Y-%m"
    else lit "%Y-%m-%d"

-- `pgDateTrunc`
unfoldable pub pg_date_trunc : Str → Str
pg_date_trunc interval =
    if interval == lit "hour"
    then lit "hour"
    else if interval == lit "week"
    then lit "week"
    else if interval == lit "month"
    then lit "month"
    else lit "day"

-- The text order of `ORDER BY period`: byte by byte.
pub text_leb : Str → Str → Bool
text_leb [] t = true
text_leb (a ∷ s) [] = false
text_leb (a ∷ s) (b ∷ t) = let rest = text_leb s t in if nat_beq a b then rest else leb a b

module _ {ℓ} {A : Type ℓ} where
  pub insert_period : Str × A → List (Str × A) → List (Str × A)
  unfolding text_leb
  insert_period p [] = p ∷ []
  insert_period p (q ∷ qs) =
      let rest = insert_period p qs in if text_leb p.0 q.0 then p ∷ q ∷ qs else q ∷ rest

  unfoldable pub by_period : List (Str × A) → List (Str × A)
  unfolding insert_period
  by_period [] = []
  by_period (p ∷ ps) = insert_period p (by_period ps)

-- `BETWEEN` on SQLite: the column's text and those of the two times. PostgreSQL compares instants.
unfoldable pub sqlite_in_range : Engine → Moment → Moment → Time → Bool
unfolding text_leb
sqlite_in_range engine from to t =
    text_leb (engine.time_string from) (engine.current_timestamp t)
    && text_leb (engine.current_timestamp t) (engine.time_string to)

unfoldable pub pg_in_range : Moment → Moment → Time → Bool
pg_in_range from to t = leb from.instant t && leb t to.instant

-- A statement that only reads.
unfoldable pub query {ℓ} : {A : Type ℓ} → (Db → A) → Db → Db × Result A
query read = statement (λ db. (db, ok (read db)))

-- A result whose error is not looked at leaves the zero value.
abbrev pub or_zero {ℓ} : {A : Type ℓ} → A → Db × Result A → Db × A
or_zero zero_value (db, ok a) = (db, a)
or_zero zero_value (db, err e) = (db, zero_value)

-- `if err != nil { return nil, err }`, and what follows.
abbrev pub then_query {ℓ κ} :
    {A : Type ℓ} {B : Type κ} → Db × Result A → (A → Db → Db × Result B) → Db × Result B
then_query (db, ok a) next = next a db
then_query (db, err e) next = (db, err e)

module _ (dialect : Dialect) (project_id : ℤ) (from to : Moment) where
  -- The events of the project in the range.
  abbrev pub events_between : Db → List EventRow
  events_between db =
      keep (λ (e : EventRow). e.project_id == project_id && dialect.in_range from to e.created_at)
        db.events

  abbrev pub devices_between : Db → List Device
  devices_between db =
      keep (λ (d : Device). d.project_id == project_id && dialect.in_range from to d.last_seen_at)
        db.devices

  abbrev pub users_between : Db → List AppUser
  users_between db =
      keep (λ (u : AppUser). u.project_id == project_id && dialect.in_range from to u.created_at)
        db.app_users

  -- The join of event_properties with the events of a name in the range; an event's id is a primary
  -- key, so a property meets one event at most.
  abbrev pub properties_between : Str → Db → List EventProperty
  properties_between name db =
      keep
        (λ (p : EventProperty).
          exists_row (λ (e : EventRow). e.id == p.event_id && e.name == name) (events_between db))
        db.properties

abbrev pub event_count : Str × ℕ → EventCount
event_count (name, n) = record { name = name; count = n }

abbrev pub country_count : Option Str × ℕ → CountryCount
country_count (country, n) = record { country = or_unknown country; count = n }

abbrev pub city_count : (Option Str × Option Str) × ℕ → CityCount
city_count ((city, country), n) = record {
  city = or_unknown city;
  country = or_unknown country;
  count = n;
}

abbrev pub point : Str × ℕ → TimeSeriesPoint
point (period, n) = record { timestamp = period; count = n }

abbrev pub platform_count : Str × ℕ → PlatformCount
platform_count (platform, n) = record { platform = platform; count = n }

abbrev pub property_value : ColumnValue × ℕ → PropertyValue
property_value (value, n) = record { value = value; count = n }

-- The loop `for rows.Next()` that appends what a row is scanned into.
abbrev pub scan {ℓ κ} : {A : Type ℓ} {B : Type κ} → (A → B) → List A → List B
scan f [] = []
scan f (a ∷ rest) = f a ∷ scan f rest
