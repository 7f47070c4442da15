-- ===== src/Storage/Sound.antt =====
-- Referential integrity of the database: what the foreign keys of the migrations promise.
pub mod Rows
pub mod Tables
pub mod Operations
pub mod Properties
pub mod Cascade
pub mod History
use oximetric.Base.{◌≡◌, true, All}
use oximetric.Model.{AppUser, Device, EventProperty}
use oximetric.Storage.Schema.{
  TokenRow, EventRow, Db, has_project, has_app_user?, has_device, has_event,
}

-- Every reference of every row has its row.
pub record IsSound (db : Db) : Type 0 where
  pub tokens : All (λ (t : TokenRow). has_project db.projects t.project_id ≡ true) db.tokens
  pub app_users : All (λ (u : AppUser). has_project db.projects u.project_id ≡ true) db.app_users
  pub devices :
      All
        (λ (d : Device).
          (has_project db.projects d.project_id ≡ true)
          × (has_app_user? db.app_users d.user_id ≡ true))
        db.devices
  pub events :
      All
        (λ (e : EventRow).
          (has_project db.projects e.project_id ≡ true)
          × (has_device db.devices e.device_id ≡ true)
          × (has_app_user? db.app_users e.user_id ≡ true))
        db.events
  pub properties : All (λ (p : EventProperty). has_event db.events p.event_id ≡ true) db.properties
