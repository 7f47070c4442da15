-- ===== src/Handler/Tracking/Request.antt =====
-- A whole request to `Track` as an ingestion.
use oximetric.Base.{
  ℤ, Str, Bool, true, false, not, ◌&&◌, Option, none, some, List, [], ◌++◌, ◌==◌, str_eq, ltb,
  is_empty, length, ◌≡◌, refl, ap, ◌∙◌, Bool-cases, Option-cases, inl, inr, arith,
}
use oximetric.Model.{TrackRequest, Device}
use oximetric.Storage.Store.{Result, ok, err, no_rows, failed}
use oximetric.Storage.Schema.{Db, EventRow, first_row, has_event, statement_runs}
use oximetric.Storage.Sqlite.Devices.{get_device_user_id, scan_user_id}
use oximetric.Storage.Sqlite.Whole.{sqlite}
use oximetric.Http.{Body, Response, Step, write_json}
use oximetric.Handler.Client.{Peer, client_ip_trusted}
use oximetric.Handler.Tracking.{
  Runtime, Batch, locate, batch_user, track_loop, track, max_events_per_batch,
}
use oximetric.Handler.Tracking.Ingest.{is_referenced, new_rows, track_loop-new_rows}

-- What is asked of a request before the store is called.
abbrev pub is_accepted : TrackRequest → Bool
is_accepted req =
    not (is_empty req.device_id)
    && not (is_empty req.events)
    && not (ltb max_events_per_batch (length req.events))

-- The user of the events: the one that the request names, or else the one of the device.
abbrev pub user_of : TrackRequest → Db → Option ℤ
user_of req db = elim req.user_id [
  | some user ↦ some user
  | none ↦ elim (first_row (λ (d : Device). d.id == req.device_id) db.devices) [
    | ok d ↦ d.user_id
    | err e ↦ none
  ]
]

device_user :
    (found : Result Device)
    → elim (scan_user_id found) [ ok user ↦ user | err e ↦ none ]
      ≡ elim found [ ok d ↦ d.user_id | err e ↦ none ]
unfolding scan_user_id
device_user (ok d) = refl
device_user (err no_rows) = refl
device_user (err failed) = refl

module _ (rt : Runtime) where
  batch_user_lem :
      (req : TrackRequest) (db : Db)
      → db.faults ≡ []
      → batch_user sqlite rt req db ≡ (db, user_of req db)
  unfolding batch_user get_device_user_id
  batch_user_lem req db quiet = elim (Option-cases req.user_id) [
    | inr (user, e) ↦ rw (batch_user, e) refl
    | inl e ↦
        let found = first_row (λ (d : Device). d.id == req.device_id) db.devices in
        let looked =
          statement_runs
            (λ (t : Db).
              (t, scan_user_id (first_row (λ (d : Device). d.id == req.device_id) t.devices)))
            db quiet in
        rw (batch_user, e, looked) (ap (λ u. (db, u)) (device_user found))
  ]

  module _ (trusted_proxies : List Str) (project_id : ℤ) (peer : Peer) (db : Db) where
    -- What the loop knows of an accepted request.
    abbrev pub batch_of : TrackRequest → Batch
    batch_of req = record {
      project_id = project_id;
      device_id = req.device_id;
      user_id = user_of req db;
      ip = client_ip_trusted trusted_proxies peer;
      location = locate rt.geo (client_ip_trusted trusted_proxies peer);
    }

    -- The rows that the ingestion adds for a request.
    abbrev pub rows_of : TrackRequest → List EventRow
    rows_of req =
        new_rows (batch_of req) (is_referenced (batch_of req) db) db.now (has_event db.events)
          req.events

    -- The outcome of a request: it is ingested and the answer has the number of the new rows, or it
    -- is turned down with 400 and nothing changes.
    pub data IsIngested (req : TrackRequest) : Db × Step (Unit {0}) → Type 0 where
      ingested :
          (after : Db)
          → is_accepted req ≡ true
          → after.events ≡ db.events ++ rows_of req
          → IsIngested req
              (after, Step.reply (write_json 202 (Body.accepted (length (rows_of req)))))
      turned_down :
          (r : Response)
          → is_accepted req ≡ false
          → r.status ≡ 400
          → IsIngested req (db, Step.reply r)

    accepted-IsIngested :
        (req : TrackRequest)
        → db.faults ≡ []
        → is_accepted req ≡ true
        → IsIngested req (track sqlite rt trusted_proxies project_id peer (some req) db)
    unfolding track
    accepted-IsIngested req quiet h =
        let filled : is_empty req.device_id ≡ false = ground arith in
        let sent : is_empty req.events ≡ false = ground arith in
        let few : ltb max_events_per_batch (length req.events) ≡ false = ground arith in
        let (rows, count) = track_loop-new_rows rt (batch_of req) req.events 0 db quiet in
        let done = track_loop sqlite rt (batch_of req) req.events 0 db in
        let number : done.1 ≡ length (rows_of req) = count ∙ omega arith in
        rw (filled, sent, few, batch_user_lem req db quiet, number)
          (IsIngested.ingested done.0 h rows)

    -- On SQLite, when the driver fails no statement, a request to Track does what the ingestion
    -- promises. If it names a device and brings one to a hundred events, then behind the events that
    -- were there come the rows of those of them that pass the checks and have an id that is neither in
    -- the database nor that of an earlier one, in their order, or none if the project, the device or
    -- the user is missing; the user is the one of the request, or else that of the device; and the
    -- answer is 202 with the number of these rows. Otherwise it is 400, and nothing changes.
    pub track-IsIngested :
        (req : TrackRequest)
        → db.faults ≡ []
        → IsIngested req (track sqlite rt trusted_proxies project_id peer (some req) db)
    unfolding track
    track-IsIngested req quiet = elim (Bool-cases (is_accepted req)) [
      | inl h ↦ accepted-IsIngested req quiet h
      | inr h ↦ elim (Bool-cases (is_empty req.device_id)) [
        | inl e ↦ rw e (IsIngested.turned_down _ h refl)
        | inr e ↦ elim (Bool-cases (is_empty req.events)) [
          | inl f ↦ rw (e, f) (IsIngested.turned_down _ h refl)
          | inr f ↦
              let many : ltb max_events_per_batch (length req.events) ≡ true = ground arith in
              rw (e, f, many) (IsIngested.turned_down _ h refl)
        ]
      ]
    ]
