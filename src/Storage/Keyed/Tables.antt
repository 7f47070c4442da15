-- ===== src/Storage/Keyed/Tables.antt =====
-- What a statement's body has to keep, and the tables one by one.
use oximetric.Base.{◌≡◌, refl, Bool, true, false, List, int_eq, str_eq, All}
use oximetric.Model.{ConsoleUser, Project, AppUser, Device, EventProperty}
use oximetric.Storage.Store.{Result}
use oximetric.Storage.Schema.{TokenRow, EventRow, Db, statement, statement_keeps, refused_if}
use oximetric.Storage.Keyed.{
  Pairwise, same_project, same_token, same_user, same_app_user, same_device, same_event,
  same_property, IsKeyed,
}
use oximetric.Storage.Sqlite.Users.{is_role}

abbrev pub Keeps {ℓ} : {A : Type ℓ} → (Db → Db × Result A) → Type 0
Keeps run = (db : Db) → IsKeyed db → IsKeyed (run db).0

pub IsKeyed-faults :
    (db : Db) (rest : List Bool) → IsKeyed db → IsKeyed (record db { faults = rest })
IsKeyed-faults db rest k = record {
  projects = k.projects;
  tokens = k.tokens;
  console_users = k.console_users;
  roles = k.roles;
  app_users = k.app_users;
  devices = k.devices;
  events = k.events;
  properties = k.properties;
}

pub statement-Keeps {ℓ} :
    {A : Type ℓ} (run : Db → Db × Result A) → Keeps run → Keeps (statement run)
statement-Keeps run keeps db k =
    statement_keeps (λ before after. IsKeyed after.0) run db
      (λ rest. keeps (record db { faults = rest }) (IsKeyed-faults db rest k))
      (λ rest. IsKeyed-faults db rest k)

-- A refused statement changes nothing.
pub refused_if-IsKeyed {ℓ} :
    {A : Type ℓ} (b : Bool) (db : Db) (done : Db × Result A)
    → IsKeyed db
    → (b ≡ false → IsKeyed done.0)
    → IsKeyed (refused_if b db done).0
unfolding refused_if
refused_if-IsKeyed true db done s k = s
refused_if-IsKeyed false db done s k = k refl

-- One table has other rows.
module _ {db : Db} (k : IsKeyed db) where
  pub with_projects :
      (ps : List Project) → Pairwise same_project ps → IsKeyed (record db { projects = ps })
  with_projects ps h = record {
    projects = h;
    tokens = k.tokens;
    console_users = k.console_users;
    roles = k.roles;
    app_users = k.app_users;
    devices = k.devices;
    events = k.events;
    properties = k.properties;
  }

  pub with_tokens :
      (ts : List TokenRow) → Pairwise same_token ts → IsKeyed (record db { tokens = ts })
  with_tokens ts h = record {
    projects = k.projects;
    tokens = h;
    console_users = k.console_users;
    roles = k.roles;
    app_users = k.app_users;
    devices = k.devices;
    events = k.events;
    properties = k.properties;
  }

  pub with_app_users :
      (us : List AppUser) → Pairwise same_app_user us → IsKeyed (record db { app_users = us })
  with_app_users us h = record {
    projects = k.projects;
    tokens = k.tokens;
    console_users = k.console_users;
    roles = k.roles;
    app_users = h;
    devices = k.devices;
    events = k.events;
    properties = k.properties;
  }

  pub with_devices :
      (ds : List Device) → Pairwise same_device ds → IsKeyed (record db { devices = ds })
  with_devices ds h = record {
    projects = k.projects;
    tokens = k.tokens;
    console_users = k.console_users;
    roles = k.roles;
    app_users = k.app_users;
    devices = h;
    events = k.events;
    properties = k.properties;
  }

  pub with_events :
      (es : List EventRow) → Pairwise same_event es → IsKeyed (record db { events = es })
  with_events es h = record {
    projects = k.projects;
    tokens = k.tokens;
    console_users = k.console_users;
    roles = k.roles;
    app_users = k.app_users;
    devices = k.devices;
    events = h;
    properties = k.properties;
  }

  pub with_properties :
      (ps : List EventProperty)
      → Pairwise same_property ps
      → IsKeyed (record db { properties = ps })
  with_properties ps h = record {
    projects = k.projects;
    tokens = k.tokens;
    console_users = k.console_users;
    roles = k.roles;
    app_users = k.app_users;
    devices = k.devices;
    events = k.events;
    properties = h;
  }

  pub with_users :
      (us : List ConsoleUser)
      → Pairwise same_user us
      → All (λ (u : ConsoleUser). is_role u.role ≡ true) us
      → IsKeyed (record db { console_users = us })
  with_users us h r = record {
    projects = k.projects;
    tokens = k.tokens;
    console_users = h;
    roles = r;
    app_users = k.app_users;
    devices = k.devices;
    events = k.events;
    properties = k.properties;
  }
