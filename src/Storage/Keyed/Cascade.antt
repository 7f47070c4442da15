-- ===== src/Storage/Keyed/Cascade.antt =====
-- The calls on several tables or in several statements keep the keys.
use oximetric.Base.{◌≡◌, refl, false, List, [], ◌∷◌, ℤ, Str, arith, ◌==◌, int_eq, str_eq}
use oximetric.Model.{Time, AppUser, Device, EventProperty}
use oximetric.Storage.Store.{Result, Done, ok, err, no_rows, failed}
use oximetric.Storage.Schema.{EventRow, Db, statement, exists_row, fresh_id}
use oximetric.Storage.Keyed.{
  Pairwise, same_project, same_token, same_app_user, same_device, same_event, same_property,
  IsKeyed,
}
use oximetric.Storage.Keyed.Tables.{
  Keeps, statement-Keeps, refused_if-IsKeyed, with_app_users, with_properties,
}
use oximetric.Storage.Keyed.Rows.{exists_row-or, Pairwise-concat, Pairwise-keep, fresh_id-above}
use oximetric.Storage.Sqlite.Projects.{
  delete_project, delete_project_run, unlink_devices, unlink_events,
}
use oximetric.Storage.Sqlite.Devices.{
  get_or_create_app_user, insert_app_user_run, select_app_user, create_if_missing, is_app_user,
  exists_app_user,
}
use oximetric.Storage.Sqlite.Events.{
  cleanup_events, cleanup_run, insert_property_run, ◌then_run◌, insert_properties_loop, bare,
  rolled_back, insert_event_properties,
}

-- The references of the rows are no keys.
Pairwise-unlink_devices :
    (us : List AppUser) (ds : List Device)
    → Pairwise same_device ds
    → Pairwise same_device (unlink_devices us ds)
Pairwise-unlink_devices us [] h = tt
Pairwise-unlink_devices us (d ∷ ds) (h, hs) = (go d ds h, Pairwise-unlink_devices us ds hs)
  where
    go :
        (d : Device) (ds : List Device)
        → exists_row (same_device d) ds ≡ false
        → exists_row (λ (x : Device). d.id == x.id) (unlink_devices us ds) ≡ false
    go d [] h = refl
    go d (x ∷ xs) h = ground (arith, go d xs)

Pairwise-unlink_events :
    (us : List AppUser) (es : List EventRow)
    → Pairwise same_event es
    → Pairwise same_event (unlink_events us es)
Pairwise-unlink_events us [] h = tt
Pairwise-unlink_events us (e ∷ es) (h, hs) = (go e es h, Pairwise-unlink_events us es hs)
  where
    go :
        (e : EventRow) (es : List EventRow)
        → exists_row (same_event e) es ≡ false
        → exists_row (λ (x : EventRow). e.id == x.id) (unlink_events us es) ≡ false
    go e [] h = refl
    go e (x ∷ xs) h = ground (arith, go e xs)

pub delete_project-Keeps : (id : ℤ) → Keeps (delete_project id)
unfolding delete_project delete_project_run
delete_project-Keeps id = statement-Keeps _ λ db k. record {
  projects = Pairwise-keep same_project _ db.projects k.projects;
  tokens = Pairwise-keep same_token _ db.tokens k.tokens;
  console_users = k.console_users;
  roles = k.roles;
  app_users = Pairwise-keep same_app_user _ db.app_users k.app_users;
  devices = Pairwise-unlink_devices _ _ (Pairwise-keep same_device _ db.devices k.devices);
  events = Pairwise-unlink_events _ _ (Pairwise-keep same_event _ db.events k.events);
  properties = Pairwise-keep same_property _ db.properties k.properties;
}

pub cleanup_events-Keeps :
    (project_id : ℤ) (before : Time) → Keeps (cleanup_events project_id before)
unfolding cleanup_events cleanup_run
cleanup_events-Keeps project_id before = statement-Keeps _ λ db k. record {
  projects = k.projects;
  tokens = k.tokens;
  console_users = k.console_users;
  roles = k.roles;
  app_users = k.app_users;
  devices = k.devices;
  events = Pairwise-keep same_event _ db.events k.events;
  properties = Pairwise-keep same_property _ db.properties k.properties;
}

-- A property is inserted under an id that no other has.
insert_property_run-Keeps : (p : EventProperty) → Keeps (insert_property_run p)
unfolding insert_property_run
insert_property_run-Keeps p db k = refused_if-IsKeyed _ db _ k (λ _. with_properties k _ (
    Pairwise-concat same_property db.properties _ k.properties
      (fresh_id-above (λ (q : EventProperty). q.id) db.properties)))

then_run-IsKeyed :
    (r : Db × Done) (next : Db → Db × Done) → IsKeyed r.0 → Keeps next → IsKeyed (r then_run next).0
unfolding ◌then_run◌
then_run-IsKeyed (db, ok done) next k h = h db k
then_run-IsKeyed (db, err e) next k h = k

insert_properties_loop-Keeps : (ps : List EventProperty) → Keeps (insert_properties_loop ps)
unfolding insert_properties_loop
insert_properties_loop-Keeps [] db k = k
insert_properties_loop-Keeps (p ∷ ps) db k =
    then_run-IsKeyed (statement (insert_property_run p) db) (insert_properties_loop ps)
      (statement-Keeps _ (insert_property_run-Keeps p) db k) (insert_properties_loop-Keeps ps)

bare-Keeps : Keeps bare
unfolding bare
bare-Keeps = statement-Keeps _ (λ db k. k)

rolled_back-IsKeyed :
    (before : List EventProperty) (r : Db × Done)
    → Pairwise same_property before
    → IsKeyed r.0
    → IsKeyed (rolled_back before r).0
unfolding rolled_back
rolled_back-IsKeyed before (db, ok done) h k = k
rolled_back-IsKeyed before (db, err e) h k = with_properties k before h

pub insert_event_properties-IsKeyed : (ps : List EventProperty) → Keeps (insert_event_properties ps)
unfolding insert_event_properties
insert_event_properties-IsKeyed ps db k = rolled_back-IsKeyed db.properties _ k.properties (
    then_run-IsKeyed _ _
      (then_run-IsKeyed _ _ (then_run-IsKeyed (bare db) bare (bare-Keeps db k) bare-Keeps)
        (insert_properties_loop-Keeps ps))
      bare-Keeps)

exists_app_user-same :
    (project_id : ℤ) (anonymous_id : Str) (us : List AppUser)
    → exists_app_user project_id anonymous_id us
      ≡ exists_row (is_app_user project_id anonymous_id) us
exists_app_user-same project_id anonymous_id [] = refl
exists_app_user-same project_id anonymous_id (u ∷ us) =
    ground (arith, exists_app_user-same project_id anonymous_id us)

insert_app_user_run-Keeps :
    (project_id : ℤ) (anonymous_id : Str) → Keeps (insert_app_user_run project_id anonymous_id)
unfolding insert_app_user_run
insert_app_user_run-Keeps project_id anonymous_id db k = refused_if-IsKeyed _ db _ k (λ found.
    with_app_users k _ (
      Pairwise-concat same_app_user db.app_users _ k.app_users (
        exists_row-or (λ u. u.id == fresh_id (λ (u : AppUser). u.id) db.app_users)
          (is_app_user project_id anonymous_id) db.app_users
          (fresh_id-above (λ (u : AppUser). u.id) db.app_users)
          (ground (arith, exists_app_user-same project_id anonymous_id db.app_users)))))

pub get_or_create_app_user-Keeps :
    (project_id : ℤ) (anonymous_id : Str) → Keeps (get_or_create_app_user project_id anonymous_id)
unfolding get_or_create_app_user select_app_user
get_or_create_app_user-Keeps project_id anonymous_id db k =
    by_result (select_app_user project_id anonymous_id db) (statement-Keeps _ (λ db k. k) db k)
  where
    by_result :
        (found : Db × Result AppUser)
        → IsKeyed found.0
        → IsKeyed (create_if_missing project_id anonymous_id found).0
    by_result (db', ok u) k' = k'
    by_result (db', err failed) k' = k'
    by_result (db', err no_rows) k' =
        statement-Keeps _ (insert_app_user_run-Keeps project_id anonymous_id) db' k'
