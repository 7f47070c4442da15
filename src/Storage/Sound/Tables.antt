-- ===== src/Storage/Sound/Tables.antt =====
-- What a statement's body has to keep, and the tables one by one.
use oximetric.Base.{
  ◌≡◌, refl, Bool, true, false, List, Option, ℤ, Str, int_eq, str_eq, All, All-imp,
}
use oximetric.Model.{ConsoleUser, Project, AppUser, Device, EventProperty}
use oximetric.Storage.Store.{Result}
use oximetric.Storage.Schema.{
  TokenRow, EventRow, Db, statement, statement_keeps, refused_if, has_project, has_app_user?,
  has_device, has_event,
}
use oximetric.Storage.Sound.{IsSound}

-- A statement's body keeps the references whole.
abbrev pub Keeps {ℓ} : {A : Type ℓ} → (Db → Db × Result A) → Type 0
Keeps run = (db : Db) → IsSound db → IsSound (run db).0

-- The schedule of faults is no part of the tables.
pub IsSound-faults :
    (db : Db) (rest : List Bool) → IsSound db → IsSound (record db { faults = rest })
IsSound-faults db rest s = record {
  tokens = s.tokens;
  app_users = s.app_users;
  devices = s.devices;
  events = s.events;
  properties = s.properties;
}

pub statement-Keeps {ℓ} :
    {A : Type ℓ} (run : Db → Db × Result A) → Keeps run → Keeps (statement run)
statement-Keeps run keeps db s =
    statement_keeps (λ before after. IsSound after.0) run db
      (λ rest. keeps (record db { faults = rest }) (IsSound-faults db rest s))
      (λ rest. IsSound-faults db rest s)

module _ {db : Db} (s : IsSound db) where
  pub with_users : (us : List ConsoleUser) → IsSound (record db { console_users = us })
  with_users us = record {
    tokens = s.tokens;
    app_users = s.app_users;
    devices = s.devices;
    events = s.events;
    properties = s.properties;
  }

  pub with_projects :
      (ps : List Project)
      → ((id : ℤ) → has_project db.projects id ≡ true → has_project ps id ≡ true)
      → IsSound (record db { projects = ps })
  with_projects ps mono = record {
    tokens = All-imp _ _ _ (λ t h. mono t.project_id h) s.tokens;
    app_users = All-imp _ _ _ (λ u h. mono u.project_id h) s.app_users;
    devices = All-imp _ _ _ (λ d h. (mono d.project_id h.0, h.1)) s.devices;
    events = All-imp _ _ _ (λ e h. (mono e.project_id h.0, h.1, h.2)) s.events;
    properties = s.properties;
  }

  pub with_tokens :
      (ts : List TokenRow)
      → All (λ (t : TokenRow). has_project db.projects t.project_id ≡ true) ts
      → IsSound (record db { tokens = ts })
  with_tokens ts h = record {
    tokens = h;
    app_users = s.app_users;
    devices = s.devices;
    events = s.events;
    properties = s.properties;
  }

  pub with_app_users :
      (us : List AppUser)
      → ((id : Option ℤ) → has_app_user? db.app_users id ≡ true → has_app_user? us id ≡ true)
      → All (λ (u : AppUser). has_project db.projects u.project_id ≡ true) us
      → IsSound (record db { app_users = us })
  with_app_users us mono h = record {
    tokens = s.tokens;
    app_users = h;
    devices = All-imp _ _ _ (λ d k. (k.0, mono d.user_id k.1)) s.devices;
    events = All-imp _ _ _ (λ e k. (k.0, k.1, mono e.user_id k.2)) s.events;
    properties = s.properties;
  }

  pub with_devices :
      (ds : List Device)
      → ((id : Str) → has_device db.devices id ≡ true → has_device ds id ≡ true)
      → All
          (λ (d : Device).
            (has_project db.projects d.project_id ≡ true)
            × (has_app_user? db.app_users d.user_id ≡ true))
          ds
      → IsSound (record db { devices = ds })
  with_devices ds mono h = record {
    tokens = s.tokens;
    app_users = s.app_users;
    devices = h;
    events = All-imp _ _ _ (λ e k. (k.0, mono e.device_id k.1, k.2)) s.events;
    properties = s.properties;
  }

  pub with_events :
      (es : List EventRow)
      → ((id : Str) → has_event db.events id ≡ true → has_event es id ≡ true)
      → All
          (λ (e : EventRow).
            (has_project db.projects e.project_id ≡ true)
            × (has_device db.devices e.device_id ≡ true)
            × (has_app_user? db.app_users e.user_id ≡ true))
          es
      → IsSound (record db { events = es })
  with_events es mono h = record {
    tokens = s.tokens;
    app_users = s.app_users;
    devices = s.devices;
    events = h;
    properties = All-imp _ _ _ (λ p k. mono p.event_id k) s.properties;
  }

  pub with_properties :
      (ps : List EventProperty)
      → All (λ (p : EventProperty). has_event db.events p.event_id ≡ true) ps
      → IsSound (record db { properties = ps })
  with_properties ps h = record {
    tokens = s.tokens;
    app_users = s.app_users;
    devices = s.devices;
    events = s.events;
    properties = h;
  }

-- A refused statement changes nothing.
pub refused_if-IsSound {ℓ} :
    {A : Type ℓ} (b : Bool) (db : Db) (done : Db × Result A)
    → IsSound db
    → (b ≡ false → IsSound done.0)
    → IsSound (refused_if b db done).0
unfolding refused_if
refused_if-IsSound true db done s k = s
refused_if-IsSound false db done s k = k refl
