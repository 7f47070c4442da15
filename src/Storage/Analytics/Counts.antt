-- ===== src/Storage/Analytics/Counts.antt =====
-- What the counts of the analytics queries are, when no statement fails.
use oximetric.Base.{
  ℕ, suc, ◌≤◌, ℤ, Str, List, [], ◌∷◌, ◌==◌, Eq, str_eq, option_eq, ◌≡◌, refl, ap, ◌∙◌, Bool, true,
  ◌&&◌, int_eq, keep, length, All, group_count,
}
use oximetric.Base.Group.Laws.{total, total-perm, total-group_count, All-perm, group_count-counts}
use oximetric.Model.{Moment, Device}
use oximetric.Model.Analytics.{EventCount, AnalyticsOverview}
use oximetric.Storage.Store.{ok}
use oximetric.Storage.Schema.{EventRow, Db, statement_runs}
use oximetric.Storage.Analytics.{query, events_between, devices_between, platform_count, scan}
use oximetric.Storage.Analytics.Sorting.{Window, Dialect, Engine, IsEngine, Descends}
use oximetric.Storage.Analytics.Queries.{ranked, get_devices_analytics}

pub query_runs {ℓ} :
    {A : Type ℓ} (read : Db → A) (db : Db) → db.faults ≡ [] → query read db ≡ (db, ok (read db))
unfolding query
query_runs read db h = statement_runs (λ d. (d, ok (read d))) db h

pub length-scan {ℓ κ} :
    {A : Type ℓ} {B : Type κ} (f : A → B) (xs : List A) → length (scan f xs) ≡ length xs
length-scan f [] = refl
length-scan f (x ∷ xs) = ap suc (length-scan f xs)

pub All-scan {ℓ κ μ} :
    {A : Type ℓ} {B : Type κ} (P : B → Type μ) (f : A → B) (xs : List A)
    → All (λ a. P (f a)) xs
    → All P (scan f xs)
All-scan P f [] h = tt
All-scan P f (x ∷ xs) (h, hs) = (h, All-scan P f xs hs)

module _ (engine : Engine) (lawful : IsEngine engine) (dialect : Dialect) where
  -- The groups of a ranking have the numbers of their rows, and share out all rows.
  pub ranked-counts :
      {A K : Type 0} ⦃e : Eq K⦄ (w : Window) (key : A → K) (rows : List A)
      → All (λ g. g.1 ≡ length (keep (λ a. key a == g.0) rows)) (ranked engine dialect w key rows)
  unfolding ranked
  ranked-counts w key rows =
      All-perm _ (lawful.descending_perm w (λ g. g.1) (group_count key rows))
        (group_count-counts key rows)

  ranked-Descends :
      {A K : Type 0} ⦃e : Eq K⦄ (w : Window) (key : A → K) (rows : List A)
      → Descends (λ g. g.1) (ranked engine dialect w key rows)
  unfolding ranked
  ranked-Descends w key rows = lawful.descending_descends w (λ g. g.1) (group_count key rows)

  pub total-ranked :
      {A K : Type 0} ⦃e : Eq K⦄ (w : Window) (key : A → K) (rows : List A)
      → total (ranked engine dialect w key rows) ≡ length rows
  unfolding ranked
  total-ranked w key rows =
      total-perm (lawful.descending_perm w (λ g. g.1) (group_count key rows))
      ∙ total-group_count key rows

-- The project's events in the range, written out.
abbrev pub counted : Dialect → ℤ → Moment → Moment → (EventRow → Bool) → Db → ℕ
counted dialect project_id from to also db = length (
    keep (λ (e : EventRow). also e)
      (keep (λ (e : EventRow). e.project_id == project_id && dialect.in_range from to e.created_at)
        db.events))

-- A summary that says what the tables hold.
pub record IsSummary (dialect : Dialect) (project_id : ℤ) (from to : Moment) (db : Db)
    (o : AnalyticsOverview) : Type 0 where
  pub total_events : o.total_events ≡ counted dialect project_id from to (λ e. true) db
  pub active_devices : o.active_devices ≤ o.total_events
  pub top_events :
      All
        (λ (c : EventCount).
          c.count ≡ counted dialect project_id from to (λ e. e.name == c.name) db)
        o.top_events
  pub at_most_ten : length o.top_events ≤ 10
  pub most_first : Descends (λ (c : EventCount). c.count) o.top_events

-- A count over the platforms, of the project's devices that were last seen in the range.
abbrev pub IsPlatformCount : Dialect → ℤ → Moment → Moment → Db → Str × ℕ → Type 0
IsPlatformCount dialect project_id from to db (platform, n) =
    n
    ≡ length (
        keep (λ (d : Device). d.platform == platform)
          (keep
            (λ (d : Device). d.project_id == project_id && dialect.in_range from to d.last_seen_at)
            db.devices))

pub keep_all : {A : Type 0} (xs : List A) → keep (λ (x : A). true) xs ≡ xs
keep_all [] = refl
keep_all (x ∷ xs) = ap (λ r. x ∷ r) (keep_all xs)

module _ (engine : Engine) (lawful : IsEngine engine) (dialect : Dialect) where
  module _ (project_id : ℤ) (from to : Moment) (db : Db) where
    abbrev names : List (Str × ℕ)
    names =
        ranked engine dialect (Window.window 10 0) (λ (e : EventRow). e.name)
          (events_between dialect project_id from to db)

    -- When no statement fails, and the database orders as asked: the answer has the platforms of the
    -- project's devices that were last seen in the range, each with the number of those devices, the
    -- most frequent first; the numbers add up to that of all those devices, so that no platform is
    -- missing; and the tables stay as they are.
    pub get_devices_analytics-total :
        db.faults ≡ []
        → (groups : List (Str × ℕ)) × (get_devices_analytics engine dialect project_id from to db
            ≡ (db, ok (record { platforms = scan platform_count groups })))
          × All (IsPlatformCount dialect project_id from to db) groups
          × Descends (λ g. g.1) groups
          × (total groups
              ≡ length (
                  keep
                    (λ (d : Device).
                      d.project_id == project_id && dialect.in_range from to d.last_seen_at)
                    db.devices))
    unfolding get_devices_analytics
    get_devices_analytics-total quiet = (
      ranked engine dialect Window.whole (λ (d : Device). d.platform)
          (devices_between dialect project_id from to db),
      rw (query_runs _ db quiet) refl,
      ranked-counts engine lawful dialect Window.whole (λ (d : Device). d.platform)
          (devices_between dialect project_id from to db),
      ranked-Descends engine lawful dialect Window.whole (λ (d : Device). d.platform)
          (devices_between dialect project_id from to db),
      total-ranked engine lawful dialect Window.whole (λ (d : Device). d.platform)
          (devices_between dialect project_id from to db),
    )
