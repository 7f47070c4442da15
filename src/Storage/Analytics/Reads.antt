-- ===== src/Storage/Analytics/Reads.antt =====
-- The analytics queries write to no table, whatever fails.
use oximetric.Base.{page, ℕ, ℤ, Str, List, [], ◌∷◌, ◌≡◌, refl, ap, ◌∙◌}
use oximetric.Model.{Moment}
use oximetric.Storage.Store.{Result, ok, err}
use oximetric.Storage.Schema.{Db, statement_keeps}
use oximetric.Storage.Analytics.{query, or_zero, then_query, AnalyticsStore}
use oximetric.Storage.Analytics.Sorting.{Dialect, Engine}
use oximetric.Storage.Analytics.Queries.{
  get_overview, get_events_analytics, get_devices_analytics, get_geo_analytics, get_users_analytics,
  get_retention_analytics, breakdown, breakdowns, with_cities, key_types, property_analytics,
  get_event_properties, analytics,
}

-- All tables are as before; only the schedule of faults may have moved on.
abbrev pub SameTables : Db → Db → Type 0
SameTables before after = ◌≡◌ {A = Db} (record after { faults = before.faults }) before

SameTables-trans : (a b c : Db) → SameTables a b → SameTables b c → SameTables a c
SameTables-trans a b c h k = ap (λ (d : Db). record d { faults = a.faults }) k ∙ h

query-SameTables {ℓ} : {A : Type ℓ} (read : Db → A) (db : Db) → SameTables db (query read db).0
unfolding query
query-SameTables read db =
    statement_keeps (λ before after. SameTables before after.0) _ db (λ rest. refl) (λ rest. refl)

or_zero-SameTables {ℓ} :
    {A : Type ℓ} (z : A) (db : Db) (r : Db × Result A)
    → SameTables db r.0
    → SameTables db (or_zero z r).0
or_zero-SameTables z db (d, ok a) h = h
or_zero-SameTables z db (d, err e) h = h

then_query-SameTables {ℓ κ} :
    {A : Type ℓ} {B : Type κ} (db : Db) (r : Db × Result A) (next : A → Db → Db × Result B)
    → SameTables db r.0
    → ((a : A) (d : Db) → SameTables d (next a d).0)
    → SameTables db (then_query r next).0
then_query-SameTables db (d, ok a) next h k = SameTables-trans db d (next a d).0 h (k a d)
then_query-SameTables db (d, err e) next h k = h

-- A query whose error is passed over.
ignored-SameTables {ℓ} :
    {A : Type ℓ} (z : A) (read : Db → A) (db : Db) → SameTables db (or_zero z (query read db)).0
ignored-SameTables z read db = or_zero-SameTables z db (query read db) (query-SameTables read db)

two-SameTables {ℓ κ} :
    {A : Type ℓ} {B : Type κ} (y : A) (z : B) (f : Db → A) (g : Db → B) (db : Db)
    → SameTables db (or_zero z (query g (or_zero y (query f db)).0)).0
two-SameTables y z f g db =
    let middle = (or_zero y (query f db)).0 in
    SameTables-trans db middle (or_zero z (query g middle)).0 (ignored-SameTables y f db)
      (ignored-SameTables z g middle)

-- What a store promises of its analytics methods.
pub record IsReading (store : AnalyticsStore Db) : Type 0 where
  pub overview :
      (project_id : ℤ) (from to : Moment) (db : Db)
      → SameTables db (store.get_overview project_id from to db).0
  pub events :
      (project_id : ℤ) (from to : Moment) (interval : Str) (limit offset : ℕ) (db : Db)
      → SameTables db (store.get_events_analytics project_id from to interval limit offset db).0
  pub properties :
      (project_id : ℤ) (name : Str) (from to : Moment) (limit offset : ℕ) (db : Db)
      → SameTables db (store.get_event_properties project_id name from to limit offset db).0
  pub devices :
      (project_id : ℤ) (from to : Moment) (db : Db)
      → SameTables db (store.get_devices_analytics project_id from to db).0
  pub geo :
      (project_id : ℤ) (from to : Moment) (limit offset : ℕ) (db : Db)
      → SameTables db (store.get_geo_analytics project_id from to limit offset db).0
  pub users :
      (project_id : ℤ) (from to : Moment) (interval : Str) (db : Db)
      → SameTables db (store.get_users_analytics project_id from to interval db).0
  pub retention :
      (project_id : ℤ) (from to : Moment) (db : Db)
      → SameTables db (store.get_retention_analytics project_id from to db).0

module _ (engine : Engine) (dialect : Dialect) where
  breakdowns-SameTables :
      (project_id : ℤ) (from to : Moment) (name : Str) (kts : List (Str × Str)) (db : Db)
      → SameTables db (breakdowns engine dialect project_id from to name kts db).0
  unfolding breakdowns breakdown
  breakdowns-SameTables project_id from to name [] db = refl
  breakdowns-SameTables project_id from to name (kt ∷ rest) db =
      let middle = (breakdown engine dialect project_id from to name kt db).0 in
      SameTables-trans db middle (breakdowns engine dialect project_id from to name rest middle).0
        (ignored-SameTables [] _ db) (breakdowns-SameTables project_id from to name rest middle)

  -- Every analytics method leaves all tables as they are, whichever of its statements fail.
  pub analytics-IsReading : IsReading (analytics engine dialect)
  unfolding get_overview get_events_analytics get_devices_analytics get_geo_analytics
      get_users_analytics get_retention_analytics get_event_properties
  analytics-IsReading = record {
    overview = λ project_id from to db.
        SameTables-trans db _ (get_overview engine dialect project_id from to db).0
          (two-SameTables 0 0 _ _ db) (two-SameTables [] [] _ _ _);
    events = λ project_id from to interval limit offset db.
        then_query-SameTables db _ _ (query-SameTables _ db) (λ names d. ignored-SameTables [] _ d);
    properties = λ project_id name from to limit offset db.
        then_query-SameTables db
          (query
            (λ d.
              page limit offset (key_types engine dialect project_id from to limit offset name d))
            db)
          (λ kts d.
            property_analytics engine dialect project_id from to
              (breakdowns engine dialect project_id from to name kts d))
          (query-SameTables _ db) (λ kts d. breakdowns-SameTables project_id from to name kts d);
    devices = λ project_id from to db.
        then_query-SameTables db _ _ (query-SameTables _ db) (λ platforms d. refl);
    geo = λ project_id from to limit offset db.
        then_query-SameTables db _ (with_cities engine dialect project_id from to limit offset)
          (query-SameTables _ db)
          (λ countries d. then_query-SameTables d _ _ (query-SameTables _ d) (λ cities d'. refl));
    users = λ project_id from to interval db. two-SameTables 0 [] _ _ db;
    retention = λ project_id from to db. refl;
  }
