-- ===== src/Handler/Tracking/Ingest.antt =====
-- The loop of `Track` as an abstract ingestion: what a batch adds to the events, without statements,
-- transactions, properties and constraints.
use oximetric.Base.{
  ℕ, ◌+◌, Str, Bool, true, false, not, ◌&&◌, ◌||◌, List, [], ◌∷◌, ◌++◌, append_assoc, append-nil,
  length, ◌==◌, str_eq, ◌≡◌, refl, sym, ap, ◌∙◌, arith, Bool-cases, inl, inr, is_empty,
}
use oximetric.Model.{Time, TrackEventRequest}
use oximetric.Storage.Store.{ok}
use oximetric.Storage.Schema.{
  Db, EventRow, has_project, has_device, has_app_user?, has_event, statement_runs, refused_if,
}
use oximetric.Storage.Sqlite.Events.{event_row, insert_event, insert_event_run}
use oximetric.Storage.Sqlite.Whole.{sqlite}
use oximetric.Storage.Sound.Properties.{Aside, insert_event_properties-Aside}
use oximetric.Handler.Tracking.{
  Runtime, Batch, batch_event, is_trackable, after_insert, track_event, track_loop,
  build_properties,
}
use oximetric.Handler.Tracking.Replay.{with_event, after_insert-IsLater, settled_skipped}

module _ (b : Batch) where
  -- The project, the device and the user of the batch are there.
  abbrev pub is_referenced : Db → Bool
  is_referenced db =
      has_project db.projects b.project_id
      && has_device db.devices b.device_id
      && has_app_user? db.app_users b.user_id

  abbrev pub row_of : Time → TrackEventRequest → EventRow
  row_of now ev = event_row (batch_event b ev) now

  -- The rows of the events that pass the checks and have an id that is neither known before nor that
  -- of an earlier one of them, in their order; none if something is missing that they refer to.
  unfoldable pub new_rows : Bool → Time → (Str → Bool) → List TrackEventRequest → List EventRow
  new_rows referenced now known [] = []
  new_rows referenced now known (ev ∷ rest) =
      elim (referenced && is_trackable ev && not (known ev.id)) [
        | true ↦ row_of now ev ∷ new_rows referenced now (λ id. ev.id == id || known id) rest
        | false ↦ new_rows referenced now known rest
      ]

  module _ (referenced : Bool) (now : Time) (known : Str → Bool) where
    new_rows_take :
        (ev : TrackEventRequest) (rest : List TrackEventRequest)
        → referenced && is_trackable ev && not (known ev.id) ≡ true
        → new_rows referenced now known (ev ∷ rest)
          ≡ row_of now ev ∷ new_rows referenced now (λ id. ev.id == id || known id) rest
    unfolding new_rows
    new_rows_take ev rest e = rw (new_rows, e) refl

    new_rows_skip :
        (ev : TrackEventRequest) (rest : List TrackEventRequest)
        → referenced && is_trackable ev && not (known ev.id) ≡ false
        → new_rows referenced now known (ev ∷ rest) ≡ new_rows referenced now known rest
    unfolding new_rows
    new_rows_skip ev rest e = rw (new_rows, e) refl

-- A new row makes its id known.
has_event-concat :
    (es : List EventRow) (e : EventRow) (id : Str)
    → has_event (es ++ e ∷ []) id ≡ (e.id == id || has_event es id)
has_event-concat [] e id = ground arith
has_event-concat (x ∷ es) e id = ground (arith, has_event-concat es e id)

module _ (rt : Runtime) (b : Batch) where
  after_insert-Aside :
      (ev : TrackEventRequest) (db : Db) → Aside db (after_insert sqlite rt ev (db, ok true)).0
  unfolding after_insert
  after_insert-Aside ev db = elim (Bool-cases (is_empty ev.properties)) [
    | inl e ↦ rw e refl
    | inr e ↦ rw e (insert_event_properties-Aside (build_properties rt ev.id ev.properties) db)
  ]

  after_insert_one :
      (ev : TrackEventRequest) (db : Db) → (after_insert sqlite rt ev (db, ok true)).1 ≡ 1
  unfolding after_insert
  after_insert_one ev db = elim (Bool-cases (is_empty ev.properties)) [
    | inl e ↦ rw e refl
    | inr e ↦ rw e refl
  ]

  -- A new event that can be referenced is inserted, with its properties or without them.
  inserted :
      (ev : TrackEventRequest) (db : Db)
      → db.faults ≡ []
      → is_trackable ev ≡ true
      → has_event db.events ev.id ≡ false
      → is_referenced b db ≡ true
      → track_event sqlite rt b ev db ≡ after_insert sqlite rt ev (with_event rt b ev db, ok true)
  unfolding track_event insert_event insert_event_run refused_if
  inserted ev db h t new ref =
      rw (t, statement_runs (insert_event_run (batch_event b ev)) db h, new, ref) refl

  skipped :
      (ev : TrackEventRequest) (db : Db)
      → db.faults ≡ []
      → is_referenced b db && is_trackable ev && not (has_event db.events ev.id) ≡ false
      → track_event sqlite rt b ev db ≡ (db, 0)
  skipped ev db h n = settled_skipped rt b ev db h (λ t.
      elim (Bool-cases (has_event db.events ev.id)) [ inl e ↦ inl e | inr e ↦ inr (ground arith) ])

  -- What the loop adds to a database whose ids are known.
  abbrev pub Refines : List TrackEventRequest → ℕ → Db → (Str → Bool) → Type 0
  Refines events accepted db known =
      let rows = new_rows b (is_referenced b db) db.now known events in
      let after = track_loop sqlite rt b events accepted db in
      (after.0.events ≡ db.events ++ rows) × (after.1 ≡ accepted + length rows)

  track_loop-Refines :
      (events : List TrackEventRequest) (accepted : ℕ) (db : Db) (known : Str → Bool)
      → db.faults ≡ []
      → ((id : Str) → has_event db.events id ≡ known id)
      → Refines events accepted db known
  unfolding track_loop new_rows
  track_loop-Refines [] accepted db known h k = (sym (append-nil db.events), omega arith)
  track_loop-Refines (ev ∷ rest) accepted db known h k =
      let next : Db × ℕ → Db × ℕ = λ r. track_loop sqlite rt b rest (accepted + r.1) r.0 in
      elim (Bool-cases (is_referenced b db && is_trackable ev && not (known ev.id))) [
        | inl e ↦
            let db' = (after_insert sqlite rt ev (with_event rt b ev db, ok true)).0 in
            let known' : Str → Bool = λ id. ev.id == id || known id in
            let step =
              ap next (inserted ev db h (ground arith) (ground (arith, k ev.id)) (ground arith)) in
            let aside = after_insert-Aside ev (with_event rt b ev db) in
            let later = after_insert-IsLater rt b ev (with_event rt b ev db) (ok true) h in
            let ids : (id : Str) → has_event db'.events id ≡ known' id = λ id.
              ap (λ d. has_event d.events id) aside
              ∙ (has_event-concat db.events (row_of b db.now ev) id
                  ∙ ap (λ t. ev.id == id || t) (k id)) in
            let (rows, count) =
              track_loop-Refines rest
                (accepted + (after_insert sqlite rt ev (with_event rt b ev db, ok true)).1) db'
                known' later.no_faults ids in
            let take = new_rows_take b (is_referenced b db) db.now known ev rest e in
            let grow =
              ap (λ d. d.events ++ new_rows b (is_referenced b d) d.now known' rest) aside
              ∙ (append_assoc db.events (row_of b db.now ev ∷ [])
                    (new_rows b (is_referenced b db) db.now known' rest)
                  ∙ sym (ap (λ t. db.events ++ t) take)) in
            let n = ap (λ d. length (new_rows b (is_referenced b d) d.now known' rest)) aside in
            let n' = ap length take in
            let one = after_insert_one ev (with_event rt b ev db) in
            (
              ap (λ (r : Db × ℕ). r.0.events) step ∙ (rows ∙ grow),
              ap (λ (r : Db × ℕ). r.1) step ∙ (count ∙ omega arith),
            )
        | inr e ↦
            let step = ap next (skipped ev db h (ground (arith, k ev.id))) in
            let (rows, count) = track_loop-Refines rest (accepted + 0) db known h k in
            let same = new_rows_skip b (is_referenced b db) db.now known ev rest e in
            let n = ap length same in
            let m = ap (λ (r : Db × ℕ). r.1) step in
            (
              ap (λ (r : Db × ℕ). r.0.events) step ∙ (rows ∙ sym (ap (λ t. db.events ++ t) same)),
              m ∙ (count ∙ omega arith),
            )
      ]

  -- On SQLite, when the driver fails no statement, the loop of Track does what the ingestion
  -- promises: behind the events that were there come the rows of those events of the batch that pass
  -- the checks and have an id that is neither in the database nor that of an earlier one, in their
  -- order, or none if the project, the device or the user is missing; and their number is what it
  -- adds to the count.
  pub track_loop-new_rows :
      (events : List TrackEventRequest) (accepted : ℕ) (db : Db)
      → db.faults ≡ []
      → Refines events accepted db (has_event db.events)
  track_loop-new_rows events accepted db h =
      track_loop-Refines events accepted db (has_event db.events) h (λ id. refl)
