-- ===== src/Handler/Tracking/Accepted.antt =====
-- What the number that `Track` returns counts.
use oximetric.Base.{
  ℕ, suc, ◌+◌, Bool, true, false, List, [], ◌∷◌, ◌++◌, length, is_empty, Bool-cases, inl, inr,
  arith, ◌≡◌, refl, ap, ◌∙◌,
}
use oximetric.Model.{Event, TrackEventRequest}
use oximetric.Storage.Store.{Result, ok, err}
use oximetric.Storage.Schema.{Db, EventRow, has_event, statement_keeps, refused_if}
use oximetric.Storage.Sqlite.Events.{insert_event, insert_event_run, event_row}
use oximetric.Storage.Sqlite.Whole.{sqlite}
use oximetric.Storage.Sound.Properties.{insert_event_properties-Aside}
use oximetric.Handler.Tracking.{
  Runtime, Batch, batch_event, is_trackable, after_insert, track_event, track_loop,
}

length-append_one : (es : List EventRow) (e : EventRow) → length (es ++ e ∷ []) ≡ suc (length es)
length-append_one [] e = refl
length-append_one (x ∷ xs) e = ap suc (length-append_one xs e)

-- The rows that an insert adds: one when it reports one, and none otherwise.
abbrev added : Result Bool → ℕ
added (ok true) = 1
added (ok false) = 0
added (err e) = 0

abbrev Adds : Db → Db × Result Bool → Type 0
Adds before (after, r) = length after.events ≡ length before.events + added r

refused_if-Adds :
    (b : Bool) (db : Db) (done : Db × Result Bool) → Adds db done → Adds db (refused_if b db done)
unfolding refused_if
refused_if-Adds true db done h = omega arith
refused_if-Adds false db done h = h

insert_event_run-Adds : (event : Event) (db : Db) → Adds db (insert_event_run event db)
unfolding insert_event_run
insert_event_run-Adds event db = elim (Bool-cases (has_event db.events event.id)) [
  | inl e ↦ rw (insert_event_run, e) (omega arith)
  | inr e ↦
      rw (insert_event_run, e)
        (refused_if-Adds _ db _
          (omega (arith, length-append_one db.events (event_row event db.now))))
]

insert_event-Adds : (event : Event) (db : Db) → Adds db (insert_event event db)
unfolding insert_event
insert_event-Adds event db =
    statement_keeps (λ before r. Adds before r) (insert_event_run event) db
      (λ rest. insert_event_run-Adds event (record db { faults = rest })) (λ rest. omega arith)

module _ (rt : Runtime) where
  -- What follows an insert adds no event, and counts what the insert has added.
  after_insert-Adds :
      (ev : TrackEventRequest) (before : Db) (r : Db × Result Bool)
      → Adds before r
      → length (after_insert sqlite rt ev r).0.events
        ≡ length before.events + (after_insert sqlite rt ev r).1
  unfolding after_insert
  after_insert-Adds ev before (db, ok true) h = elim (Bool-cases (is_empty ev.properties)) [
    | inl e ↦ rw (after_insert, e) h
    | inr e ↦
        rw (after_insert, e)
          (ap (λ (d : Db). length d.events) (insert_event_properties-Aside _ db) ∙ h)
  ]
  after_insert-Adds ev before (db, ok false) h = h
  after_insert-Adds ev before (db, err e) h = h

  track_event-Adds :
      (b : Batch) (ev : TrackEventRequest) (db : Db)
      → length (track_event sqlite rt b ev db).0.events
        ≡ length db.events + (track_event sqlite rt b ev db).1
  unfolding track_event
  track_event-Adds b ev db = elim (Bool-cases (is_trackable ev)) [
    | inl e ↦
        rw (track_event, e)
          (after_insert-Adds ev db (insert_event (batch_event b ev) db) (insert_event-Adds _ db))
    | inr e ↦ rw (track_event, e) (omega arith)
  ]

  -- On SQLite, whichever statements the driver fails: the loop adds to the count the number of the
  -- rows that it has added to the table of the events. So events that are refused by a check, that
  -- are stored already or whose insertion fails are not counted, and those whose properties fail are.
  pub track_loop_accepted :
      (b : Batch) (events : List TrackEventRequest) (accepted : ℕ) (db : Db)
      → length (track_loop sqlite rt b events accepted db).0.events + accepted
        ≡ length db.events + (track_loop sqlite rt b events accepted db).1
  unfolding track_loop
  track_loop_accepted b [] accepted db = refl
  track_loop_accepted b (ev ∷ rest) accepted db =
      let (after, n) = track_event sqlite rt b ev db in
      omega (
        arith,
        track_event-Adds b ev db,
        track_loop_accepted b rest (accepted + (track_event sqlite rt b ev db).1)
            (track_event sqlite rt b ev db).0,
      )
