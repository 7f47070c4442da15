-- ===== src/Storage/Sound/Cascade.antt =====
-- The two deletions that cascade keep the references whole: what is left refers to nothing deleted.
use oximetric.Base.{
  ◌≡◌, refl, ap, ◌∙◌, Bool, true, false, not, ◌&&◌, List, [], ◌∷◌, Option, ℤ, Str, arith, keep,
  ◌==◌, int_eq, str_eq, eq_iff, Bool-cases, inl, inr, All, All-imp, All-keep,
}
use oximetric.Model.{Time, Project, AppUser, Device}
use oximetric.Storage.Schema.{EventRow, Db, has_project, has_app_user?, has_device, has_event}
use oximetric.Storage.Sound.{IsSound}
use oximetric.Storage.Sound.Rows.{exists_row-keep, exists_row-kept}
use oximetric.Storage.Sound.Tables.{Keeps, statement-Keeps}
use oximetric.Storage.Sqlite.Projects.{
  null_if_gone, unlink_devices, unlink_events, delete_project_run, delete_project,
}
use oximetric.Storage.Sqlite.Events.{is_expired, cleanup_run, cleanup_events}

has_app_user?-null_if_gone :
    (us : List AppUser) (user : Option ℤ) → has_app_user? us (null_if_gone us user) ≡ true
has_app_user?-null_if_gone us user = elim (Bool-cases (has_app_user? us user)) [
  | inl e ↦ rw e e
  | inr e ↦ rw e
]

has_device-unlink_devices :
    (us : List AppUser) (ds : List Device) (id : Str)
    → has_device (unlink_devices us ds) id ≡ has_device ds id
has_device-unlink_devices us [] id = refl
has_device-unlink_devices us (d ∷ ds) id = ground (arith, has_device-unlink_devices us ds id)

has_event-unlink_events :
    (us : List AppUser) (es : List EventRow) (id : Str)
    → has_event (unlink_events us es) id ≡ has_event es id
has_event-unlink_events us [] id = refl
has_event-unlink_events us (e ∷ es) id = ground (arith, has_event-unlink_events us es id)

-- The new reference of every device is whole.
All-unlink_devices :
    (P : Device → Type 0) (us : List AppUser) (ds : List Device)
    → All P ds
    → ((d : Device) → P d → P (record d { user_id = null_if_gone us d.user_id }))
    → All (λ (d : Device). P d × (has_app_user? us d.user_id ≡ true)) (unlink_devices us ds)
All-unlink_devices P us [] h k = tt
All-unlink_devices P us (d ∷ ds) (h, hs) k =
    ((k d h, has_app_user?-null_if_gone us d.user_id), All-unlink_devices P us ds hs k)

All-unlink_events :
    (P : EventRow → Type 0) (us : List AppUser) (es : List EventRow)
    → All P es
    → ((e : EventRow) → P e → P (record e { user_id = null_if_gone us e.user_id }))
    → All (λ (e : EventRow). P e × (has_app_user? us e.user_id ≡ true)) (unlink_events us es)
All-unlink_events P us [] h k = tt
All-unlink_events P us (e ∷ es) (h, hs) k =
    ((k e h, has_app_user?-null_if_gone us e.user_id), All-unlink_events P us es hs k)

-- Another project than the deleted one is kept.
has_project-keep :
    (ps : List Project) (id other : ℤ)
    → not (other == id) ≡ true
    → has_project ps other ≡ true
    → has_project (keep (λ (p : Project). not (p.id == id)) ps) other ≡ true
has_project-keep ps id other h =
    exists_row-keep (λ (p : Project). p.id == other) (λ (p : Project). not (p.id == id)) ps
      (λ p e. ap (λ i. not (i == id)) ((eq_iff p.id other).0 e) ∙ h)

not-true : (b : Bool) → not b ≡ true → b ≡ false
not-true b h = ground arith

module _ (id : ℤ) (db : Db) where
  users_left : List AppUser
  users_left = keep (λ (u : AppUser). not (u.project_id == id)) db.app_users

  devices_left : List Device
  unfolding users_left
  devices_left =
      unlink_devices users_left (keep (λ (d : Device). not (d.project_id == id)) db.devices)

  -- A device that is not deleted is among those left.
  has_device-left :
      (device_id : Str)
      → has_device db.devices device_id ≡ true
      → has_device (keep (λ (d : Device). d.project_id == id) db.devices) device_id ≡ false
      → has_device devices_left device_id ≡ true
  unfolding devices_left
  has_device-left device_id h k =
      has_device-unlink_devices users_left _ device_id
      ∙ exists_row-kept (λ (d : Device). d.id == device_id)
          (λ (d : Device). not (d.project_id == id)) (λ (d : Device). d.project_id == id) db.devices
          (λ d e. ground arith) h k

  -- An event survives if it is of another project and its device is left.
  abbrev stays : EventRow → Bool
  stays e =
      not (e.project_id == id)
      && not (has_device (keep (λ (d : Device). d.project_id == id) db.devices) e.device_id)

delete_project_run-IsSound : (id : ℤ) (db : Db) → IsSound db → IsSound (delete_project_run id db)
unfolding delete_project_run devices_left
delete_project_run-IsSound id db s = record {
  tokens =
      All-keep _ _ _ db.tokens (λ t e h. has_project-keep db.projects id t.project_id e h) s.tokens;
  app_users =
      All-keep _ _ _ db.app_users (λ u e h. has_project-keep db.projects id u.project_id e h)
        s.app_users;
  devices =
      All-unlink_devices (λ d. has_project _ d.project_id ≡ true) (users_left id db) _
        (All-keep _ _ (λ (d : Device). not (d.project_id == id)) db.devices
          (λ d e h. has_project-keep db.projects id d.project_id e h.0) s.devices)
        (λ d h. h);
  events =
      All-imp _ _ _ (λ e h. (h.0.0, h.0.1, h.1))
        (All-unlink_events
          (λ e.
            (has_project (delete_project_run id db).projects e.project_id ≡ true)
            × (has_device (devices_left id db) e.device_id ≡ true))
          (users_left id db) _
          (All-keep _ _ (stays id db) db.events
            (λ e keeps h. (
              has_project-keep db.projects id e.project_id (ground arith) h.0,
              has_device-left id db e.device_id h.1 (ground arith),
            ))
            s.events)
          (λ e h. h));
  properties =
      All-keep _ _ _ db.properties
        (λ p e h.
          has_event-unlink_events (users_left id db) _ p.event_id
          ∙ exists_row-kept (λ (e : EventRow). e.id == p.event_id) (stays id db)
              (λ e. not (stays id db e)) db.events (λ e k. ap not k) h (not-true _ e))
        s.properties;
}

pub delete_project-Keeps : (id : ℤ) → Keeps (delete_project id)
unfolding delete_project
delete_project-Keeps id = statement-Keeps _ (delete_project_run-IsSound id)

cleanup_run-Keeps : (project_id : ℤ) (before : Time) → Keeps (cleanup_run project_id before)
unfolding cleanup_run
cleanup_run-Keeps project_id before db s = record {
  tokens = s.tokens;
  app_users = s.app_users;
  devices = s.devices;
  events =
      All-keep _ _ (λ (e : EventRow). not (is_expired project_id before e)) db.events (λ e _ h. h)
        s.events;
  properties =
      All-keep _ _ _ db.properties
        (λ p e h.
          exists_row-kept (λ (e : EventRow). e.id == p.event_id)
            (λ e. not (is_expired project_id before e)) (is_expired project_id before) db.events
            (λ e k. ground arith) h (not-true _ e))
        s.properties;
}

pub cleanup_events-Keeps :
    (project_id : ℤ) (before : Time) → Keeps (cleanup_events project_id before)
unfolding cleanup_events
cleanup_events-Keeps project_id before = statement-Keeps _ (cleanup_run-Keeps project_id before)
