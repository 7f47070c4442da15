-- ===== src/Handler/Tracking/Later.antt =====
-- The states that a batch leads to, when no statement fails: nothing that an event refers to changes.
use oximetric.Base.{
  ◌≡◌, ◌∙◌, refl, ap, arith, Str, Bool, true, List, [], ◌∷◌, ◌++◌, str_eq, eq_refl,
}
use oximetric.Model.{EventProperty}
use oximetric.Storage.Store.{Done, ok, err}
use oximetric.Storage.Schema.{
  Db, EventRow, statement, statement_runs, refused_if, has_event, exists_row,
}
use oximetric.Storage.Sqlite.Events.{
  insert_event_properties, insert_property_run, insert_properties_loop, bare, rolled_back,
}
use oximetric.Storage.Sound.Properties.{transaction, then_run_keeps, insert_event_properties-Aside}

-- A later state of one without failures: what events refer to is the same, and no event is gone.
pub record IsLater (before after : Db) : Type 0 where
  pub no_faults : after.faults ≡ []
  pub projects_same : after.projects ≡ before.projects
  pub devices_same : after.devices ≡ before.devices
  pub users_same : after.app_users ≡ before.app_users
  pub events_kept :
      (id : Str) → has_event before.events id ≡ true → has_event after.events id ≡ true

pub IsLater-refl : (db : Db) → db.faults ≡ [] → IsLater db db
IsLater-refl db h = record {
  no_faults = h;
  projects_same = refl;
  devices_same = refl;
  users_same = refl;
  events_kept = λ id e. e;
}

pub IsLater-trans : (a b c : Db) → IsLater a b → IsLater b c → IsLater a c
IsLater-trans a b c h k = record {
  no_faults = k.no_faults;
  projects_same = k.projects_same ∙ h.projects_same;
  devices_same = k.devices_same ∙ h.devices_same;
  users_same = k.users_same ∙ h.users_same;
  events_kept = λ id e. k.events_kept id (h.events_kept id e);
}

pub exists_row-append {ℓ} :
    {A : Type ℓ} (p : A → Bool) (xs ys : List A)
    → exists_row p xs ≡ true
    → exists_row p (xs ++ ys) ≡ true
exists_row-append p [] ys h = ground arith
exists_row-append p (x ∷ xs) ys h = ground (arith, exists_row-append p xs ys)

pub has_event-last : (es : List EventRow) (e : EventRow) → has_event (es ++ e ∷ []) e.id ≡ true
has_event-last [] e = ground (arith, eq_refl e.id)
has_event-last (x ∷ es) e = ground (arith, has_event-last es e)

-- Statements without failures to come leave none to come.
quiet_run :
    (p : EventProperty) (db : Db)
    → db.faults ≡ []
    → (statement (insert_property_run p) db).0.faults ≡ []
unfolding insert_property_run refused_if
quiet_run p db h = rw (statement_runs (insert_property_run p) db h) (ground arith)

quiet_bare : (db : Db) → db.faults ≡ [] → (bare db).0.faults ≡ []
unfolding bare
quiet_bare db h = rw (statement_runs _ db h) h

quiet_loop :
    (ps : List EventProperty) (db : Db)
    → db.faults ≡ []
    → (insert_properties_loop ps db).0.faults ≡ []
unfolding insert_properties_loop
quiet_loop [] db h = h
quiet_loop (p ∷ ps) db h =
    then_run_keeps (λ d. d.faults ≡ []) (statement (insert_property_run p) db)
      (insert_properties_loop ps) (quiet_run p db h) (quiet_loop ps)

quiet_rolled_back :
    (ps : List EventProperty) (r : Db × Done) → r.0.faults ≡ [] → (rolled_back ps r).0.faults ≡ []
unfolding rolled_back
quiet_rolled_back ps (db, ok done) h = h
quiet_rolled_back ps (db, err e) h = h

quiet_transaction :
    (ps : List EventProperty) (db : Db) → db.faults ≡ [] → (transaction ps db).0.faults ≡ []
quiet_transaction ps db h =
    then_run_keeps (λ d. d.faults ≡ []) _ bare
      (then_run_keeps (λ d. d.faults ≡ []) _ (insert_properties_loop ps)
        (then_run_keeps (λ d. d.faults ≡ []) (bare db) bare (quiet_bare db h) quiet_bare)
        (quiet_loop ps))
      quiet_bare

quiet_properties :
    (ps : List EventProperty) (db : Db)
    → db.faults ≡ []
    → (insert_event_properties ps db).0.faults ≡ []
unfolding insert_event_properties
quiet_properties ps db h =
    quiet_rolled_back db.properties (transaction ps db) (quiet_transaction ps db h)

pub properties-IsLater :
    (ps : List EventProperty) (db : Db)
    → db.faults ≡ []
    → IsLater db (insert_event_properties ps db).0
properties-IsLater ps db h =
    let aside = insert_event_properties-Aside ps db in
    record {
      no_faults = quiet_properties ps db h;
      projects_same = ap (λ d. d.projects) aside;
      devices_same = ap (λ d. d.devices) aside;
      users_same = ap (λ d. d.app_users) aside;
      events_kept = λ id e. ap (λ d. has_event d.events id) aside ∙ e;
    }
