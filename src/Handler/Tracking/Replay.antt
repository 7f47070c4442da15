-- ===== src/Handler/Tracking/Replay.antt =====
-- What a second run of the same batch does on SQLite.
use oximetric.Base.{
  ℕ, ◌+◌, Bool, true, false, List, [], ◌∷◌, ◌++◌, is_empty, Bool-cases, inl, inr, refl, ap, ◌≡◌,
  ◌⊎◌, arith, str_eq, All,
}
use oximetric.Model.{TrackEventRequest}
use oximetric.Storage.Store.{Result, ok, err, failed}
use oximetric.Storage.Schema.{Db, statement_runs, refused_if, has_event}
use oximetric.Storage.Sqlite.Events.{insert_event, insert_event_run, event_row, has_references}
use oximetric.Storage.Sqlite.Whole.{sqlite}
use oximetric.Handler.Tracking.Later.{
  IsLater, IsLater-refl, IsLater-trans, exists_row-append, has_event-last, properties-IsLater,
}
use oximetric.Handler.Tracking.{
  Runtime, Batch, batch_event, is_trackable, after_insert, track_event, track_loop,
  build_properties,
}

-- The event is refused whenever it comes: its id is taken, or it refers to what is missing.
abbrev pub IsRefused : Batch → Db → TrackEventRequest → Type 0
IsRefused b db ev =
    (has_event db.events ev.id ≡ true) ⊎ (has_references (batch_event b ev) db ≡ false)

abbrev pub IsSettled : Batch → Db → TrackEventRequest → Type 0
IsSettled b db ev = is_trackable ev ≡ true → IsRefused b db ev

IsSettled-later :
    (b : Batch) (before after : Db) (ev : TrackEventRequest)
    → IsLater before after
    → IsSettled b before ev
    → IsSettled b after ev
IsSettled-later b before after ev l h t = elim (h t) [
  | inl e ↦ inl (l.events_kept ev.id e)
  | inr e ↦ inr (rw (l.projects_same, l.devices_same, l.users_same) e)
]

module _ (rt : Runtime) (b : Batch) where
  abbrev pub with_event : TrackEventRequest → Db → Db
  with_event ev db = record db { events = db.events ++ event_row (batch_event b ev) db.now ∷ [] }

  pub with_event-IsLater :
      (ev : TrackEventRequest) (db : Db) → db.faults ≡ [] → IsLater db (with_event ev db)
  with_event-IsLater ev db h = record {
    no_faults = h;
    projects_same = refl;
    devices_same = refl;
    users_same = refl;
    events_kept = λ id e. exists_row-append _ db.events _ e;
  }

  pub after_insert-IsLater :
      (ev : TrackEventRequest) (db : Db) (r : Result Bool)
      → db.faults ≡ []
      → IsLater db (after_insert sqlite rt ev (db, r)).0
  unfolding after_insert
  after_insert-IsLater ev db (ok false) h = IsLater-refl db h
  after_insert-IsLater ev db (err e) h = IsLater-refl db h
  after_insert-IsLater ev db (ok true) h = elim (Bool-cases (is_empty ev.properties)) [
    | inl e ↦ rw e (IsLater-refl db h)
    | inr e ↦ rw e (properties-IsLater (build_properties rt ev.id ev.properties) db h)
  ]

  -- An event that is new and refers to what is there is settled by being inserted.
  insert_new :
      (ev : TrackEventRequest) (db : Db)
      → db.faults ≡ []
      → IsLater db (after_insert sqlite rt ev (with_event ev db, ok true)).0
        × IsRefused b (after_insert sqlite rt ev (with_event ev db, ok true)).0 ev
  insert_new ev db h =
      let later = after_insert-IsLater ev (with_event ev db) (ok true) h in
      (
        IsLater-trans db _ _ (with_event-IsLater ev db h) later,
        inl (
            later.events_kept ev.id
              (has_event-last db.events (event_row (batch_event b ev) db.now))),
      )

  -- One round of the loop leads to a later state, in which its event is settled.
  round :
      (ev : TrackEventRequest) (db : Db)
      → db.faults ≡ []
      → IsLater db (track_event sqlite rt b ev db).0
        × IsSettled b (track_event sqlite rt b ev db).0 ev
  unfolding track_event insert_event insert_event_run refused_if
  round ev db h = elim (Bool-cases (is_trackable ev)) [
    | inr t ↦ rw t (IsLater-refl db h, λ k. ground arith)
    | inl t ↦
        rw (t, statement_runs (insert_event_run (batch_event b ev)) db h)
          (elim (Bool-cases (has_event db.events ev.id)) [
            | inl e ↦ rw e (after_insert-IsLater ev db (ok false) h, λ k. inl e)
            | inr e ↦ elim (Bool-cases (has_references (batch_event b ev) db)) [
              | inl r ↦ let (later, refused) = insert_new ev db h in rw (e, r) (later, λ k. refused)
              | inr r ↦ rw (e, r) (after_insert-IsLater ev db (err failed) h, λ k. inr r)
            ]
          ])
  ]

  pub settled_skipped :
      (ev : TrackEventRequest) (db : Db)
      → db.faults ≡ []
      → IsSettled b db ev
      → track_event sqlite rt b ev db ≡ (db, 0)
  unfolding track_event insert_event insert_event_run refused_if after_insert
  settled_skipped ev db h s = elim (Bool-cases (is_trackable ev)) [
    | inr e ↦ rw e refl
    | inl e ↦
        rw (e, statement_runs (insert_event_run (batch_event b ev)) db h)
          (elim (s e) [
            | inl taken ↦ rw taken refl
            | inr missing ↦ elim (Bool-cases (has_event db.events ev.id)) [
              | inl taken ↦ rw taken refl
              | inr new ↦ rw (new, missing) refl
            ]
          ])
  ]

  -- After the loop every event of the batch is settled.
  loop_settles :
      (events : List TrackEventRequest) (accepted : ℕ) (db : Db)
      → db.faults ≡ []
      → IsLater db (track_loop sqlite rt b events accepted db).0
        × All (IsSettled b (track_loop sqlite rt b events accepted db).0) events
  unfolding track_loop
  loop_settles [] accepted db h = (IsLater-refl db h, tt)
  loop_settles (ev ∷ rest) accepted db h =
      let (later, settled) = round ev db h in
      let (rest_later, rest_settled) =
        loop_settles rest (accepted + (track_event sqlite rt b ev db).1)
          (track_event sqlite rt b ev db).0 later.no_faults in
      (
        IsLater-trans db _ _ later rest_later,
        (IsSettled-later b _ _ ev rest_later settled, rest_settled),
      )

  settled_loop :
      (events : List TrackEventRequest) (accepted : ℕ) (db : Db)
      → db.faults ≡ []
      → All (IsSettled b db) events
      → track_loop sqlite rt b events accepted db ≡ (db, accepted)
  unfolding track_loop
  settled_loop [] accepted db h s = refl
  settled_loop (ev ∷ rest) accepted db h (s, ss) =
      rw (settled_skipped ev db h s, settled_loop rest (accepted + 0) db h ss)
        (ap (λ n. (db, n)) (omega arith))

  -- On SQLite, when the driver fails no statement, a batch that is sent again is accepted with the
  -- count 0 and leaves the database as the first run left it.
  pub track_loop_replay :
      (events : List TrackEventRequest) (db : Db)
      → db.faults ≡ []
      → let after = (track_loop sqlite rt b events 0 db).0 in
        track_loop sqlite rt b events 0 after ≡ (after, 0)
  track_loop_replay events db h =
      let (later, settled) = loop_settles events 0 db h in
      settled_loop events 0 _ later.no_faults settled
