-- ===== src/Examples/Tracking.antt =====
-- A batch of three events, of which one has no name and one comes twice.
use oximetric.Base.{lit, true, pos, List, [], ◌∷◌, ◌+◌, none, some, ◌≡◌, refl, length}
use oximetric.Model.{TrackEventRequest, TrackRequest}
use oximetric.Storage.Schema.{Db}
use oximetric.Storage.Sqlite.Whole.{sqlite}
use oximetric.Handler.Tracking.{Runtime, Batch, track_loop, track}
use oximetric.Handler.Tracking.Accepted.{track_loop_accepted}
use oximetric.Handler.Tracking.Request.{IsIngested, track-IsIngested}
use oximetric.Handler.Client.{Peer}
use oximetric.Handler.Tracking.Replay.{track_loop_replay}
use oximetric.Examples.Storage.{one_event}

abbrev pub runtime : Runtime
runtime = record { geo = none; to_int64 = λ f. pos f; parse_rfc3339 = λ s. none }

abbrev batch : Batch
batch = record {
  project_id = pos 1;
  device_id = lit "d";
  user_id = none;
  ip = lit "10.0.0.1";
  location = record { country = []; city = [] };
}

abbrev sent : List TrackEventRequest
sent =
    record { id = lit "f"; name = lit "tap"; timestamp = []; properties = [] }
    ∷ record { id = lit "g"; name = []; timestamp = []; properties = [] }
    ∷ record { id = lit "f"; name = lit "tap"; timestamp = []; properties = [] }
    ∷ []

-- The first insertion fails.
abbrev broken : Db
broken = record one_event { faults = true ∷ [] }

track_loop_accepted_example :
    length (track_loop sqlite runtime batch sent 0 broken).0.events + 0
    ≡ length broken.events + (track_loop sqlite runtime batch sent 0 broken).1
track_loop_accepted_example = track_loop_accepted runtime batch sent 0 broken

track_loop_replay_example :
    let after = (track_loop sqlite runtime batch sent 0 one_event).0 in
    track_loop sqlite runtime batch sent 0 after ≡ (after, 0)
track_loop_replay_example = track_loop_replay runtime batch sent one_event refl

abbrev request : TrackRequest
request = record { device_id = lit "d"; user_id = none; events = sent }

abbrev peer : Peer
peer = record { remote_addr = lit "10.0.0.1:5000"; x_forwarded_for = []; x_real_ip = [] }

track-IsIngested_example :
    IsIngested runtime []
      (pos 1)
      peer
      one_event
      request
      (track sqlite runtime [] (pos 1) peer (some request) one_event)
track-IsIngested_example = track-IsIngested runtime [] (pos 1) peer one_event request refl
