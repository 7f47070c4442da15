-- ===== src/Storage/Keyed.antt =====
-- The keys of the database: what the primary keys, the unique indices and the CHECK on a role of the
-- migrations promise.
pub mod Rows
pub mod Tables
pub mod Operations
pub mod Cascade
pub mod History
use oximetric.Base.{◌≡◌, ◌||◌, ◌&&◌, Bool, true, false, List, [], ◌∷◌, All, ◌==◌, int_eq, str_eq}
use oximetric.Model.{Project, ConsoleUser, AppUser, Device, EventProperty}
use oximetric.Storage.Schema.{TokenRow, EventRow, Db, exists_row}
use oximetric.Storage.Sqlite.Users.{is_role, same_email}

-- No row clashes with one behind it.
abbrev pub Pairwise {ℓ} : {A : Type ℓ} → (A → A → Bool) → List A → Type 0
Pairwise clash [] = Unit
Pairwise clash (x ∷ xs) = (exists_row (clash x) xs ≡ false) × Pairwise clash xs

abbrev pub same_project : Project → Project → Bool
same_project a b = a.id == b.id

abbrev pub same_token : TokenRow → TokenRow → Bool
same_token a b = a.id == b.id || a.token == b.token

abbrev pub same_user : ConsoleUser → ConsoleUser → Bool
same_user a b = a.id == b.id || (a.username == b.username || same_email a.email b.email)

abbrev pub same_app_user : AppUser → AppUser → Bool
same_app_user a b =
    a.id == b.id || (a.project_id == b.project_id && a.anonymous_id == b.anonymous_id)

abbrev pub same_device : Device → Device → Bool
same_device a b = a.id == b.id

abbrev pub same_event : EventRow → EventRow → Bool
same_event a b = a.id == b.id

abbrev pub same_property : EventProperty → EventProperty → Bool
same_property a b = a.id == b.id

pub record IsKeyed (db : Db) : Type 0 where
  pub projects : Pairwise same_project db.projects
  pub tokens : Pairwise same_token db.tokens
  pub console_users : Pairwise same_user db.console_users
  pub roles : All (λ (u : ConsoleUser). is_role u.role ≡ true) db.console_users
  pub app_users : Pairwise same_app_user db.app_users
  pub devices : Pairwise same_device db.devices
  pub events : Pairwise same_event db.events
  pub properties : Pairwise same_property db.properties
