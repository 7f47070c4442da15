-- ===== src/Startup/Retention.antt =====
-- Which events `runRetentionCleanup` deletes.
use oximetric.Base.{
  ℤ, Bool, true, false, not, List, [], ◌∷◌, ◌≡◌, refl, sym, ap, ◌∙◌, arith, keep, is_positive,
  if◌then◌else◌,
}
use oximetric.Model.{Time, Project}
use oximetric.Storage.Store.{ok}
use oximetric.Storage.Schema.{Db, EventRow, statement_runs, exists_row}
use oximetric.Storage.Sqlite.Events.{is_expired, cleanup_run, cleanup_events}
use oximetric.Storage.Sqlite.Projects.{get_projects_with_retention}
use oximetric.Storage.Sqlite.Whole.{sqlite}
use oximetric.Startup.{cleanup_loop, run_retention_cleanup}

pub keep-keep {ℓ} :
    {A : Type ℓ} (p q r : A → Bool) (xs : List A)
    → ((x : A) → r x ≡ (if p x then q x else false))
    → keep q (keep p xs) ≡ keep r xs
keep-keep p q r [] h = refl
keep-keep p q r (x ∷ xs) h = ground (arith, h x, keep-keep p q r xs h)

pub keep_all {ℓ} : {A : Type ℓ} (xs : List A) → keep (λ (x : A). true) xs ≡ xs
keep_all [] = refl
keep_all (x ∷ xs) = ap (λ t. x ∷ t) (keep_all xs)

module _ (days_before : Time → ℤ → Time) (clock : Project → Time) where
  -- The event is older than its project keeps events.
  abbrev pub is_outdated : EventRow → Project → Bool
  is_outdated e p = is_expired p.id (days_before (clock p) p.retention_days) e

  -- One of the projects has the event outdated.
  abbrev pub outdated_in : List Project → EventRow → Bool
  outdated_in projects e = exists_row (is_outdated e) projects

  cleanup_loop_events :
      (projects : List Project) (db : Db)
      → db.faults ≡ []
      → (cleanup_loop sqlite days_before clock projects db).events
        ≡ keep (λ e. not (outdated_in projects e)) db.events
  unfolding cleanup_loop cleanup_events cleanup_run
  cleanup_loop_events [] db h = sym (keep_all db.events)
  cleanup_loop_events (p ∷ rest) db h =
      let before = days_before (clock p) p.retention_days in
      let run : cleanup_events p.id before db ≡ cleanup_run p.id before db =
        statement_runs (cleanup_run p.id before) db h in
      ap (λ d. (cleanup_loop sqlite days_before clock rest d.0).events) run
      ∙ (cleanup_loop_events rest (cleanup_run p.id before db).0 h
          ∙ keep-keep (λ e. not (is_outdated e p)) (λ e. not (outdated_in rest e))
              (λ e. not (outdated_in (p ∷ rest) e)) db.events (λ e. ground arith))

  -- The projects that keep their events for a number of days, and not for good.
  abbrev pub limited : Db → List Project
  limited db = keep (λ (p : Project). is_positive p.retention_days) db.projects

  -- On SQLite, when the driver fails no statement, the clean-up deletes the events that are older
  -- than their project keeps them, if it has a positive number of days for that, and no others: what
  -- is left are the other events, in their order.
  pub run_retention_cleanup_events :
      (db : Db)
      → db.faults ≡ []
      → (run_retention_cleanup sqlite days_before clock db).events
        ≡ keep (λ e. not (outdated_in (limited db) e)) db.events
  unfolding run_retention_cleanup get_projects_with_retention
  run_retention_cleanup_events db h =
      let listed = statement_runs (λ (d : Db). (d, ok (limited d))) db h in
      rw listed (cleanup_loop_events (limited db) db h)
