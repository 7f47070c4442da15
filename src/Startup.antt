-- ===== src/Startup.antt =====
-- `bootstrapAdmin` and `runRetentionCleanup` of cmd/oximetric/main.go.
pub mod Found
pub mod Admin
pub mod Retention
pub mod Loops
pub mod Shutdown
pub mod Main
pub mod Ready
use oximetric.Base.{
  ℤ, Str, lit, Bool, true, false, List, [], ◌∷◌, Option, none, some, ℕ, if◌then◌else◌,
}
use oximetric.Model.{Time, Project, ConsoleUser}
use oximetric.Storage.Store.{Store, Result, Done, ok, err, no_rows, failed}
use oximetric.Auth.{Crypto, hash_password, check_password}

-- The user that is created; the zero values are those of Go.
abbrev pub new_admin : Str → Str → ConsoleUser
new_admin username hash = record {
  id = ℤ.pos 0;
  username = username;
  email = none;
  password_hash = hash;
  role = lit "admin";
  totp_secret = none;
  totp_enabled = false;
  created_at = 0;
}

-- The user with a new password and no second factor.
abbrev pub reset_admin : ConsoleUser → Str → ConsoleUser
reset_admin user hash = record user {
  password_hash = hash;
  totp_enabled = false;
  totp_secret = none;
}

abbrev pub done_of {ℓ} : {S : Type 0} {A : Type ℓ} → S × Result A → S × Done
done_of (s, ok a) = (s, ok tt)
done_of (s, err e) = (s, err e)

module _ (store : Store) (crypto : Crypto) (username password : Str) (salt : ℕ) where
  open store use {S, get_console_user_by_login, create_console_user, update_console_user}

  -- What follows the lookup; a hash that cannot be made is an error.
  unfoldable pub after_lookup : S × Result ConsoleUser → S × Done
  after_lookup (s, err failed) = (s, err failed)
  after_lookup (s, err no_rows) = elim (hash_password crypto salt password) [
    | none ↦ (s, err failed)
    | some hash ↦ done_of (create_console_user (new_admin username hash) s)
  ]
  after_lookup (s, ok user) =
      if check_password crypto user.password_hash password
      then (s, ok tt)
      else elim (hash_password crypto salt password) [
        | none ↦ (s, err failed)
        | some hash ↦ update_console_user (reset_admin user hash) s
      ]

  unfoldable pub bootstrap_admin : S → S × Done
  unfolding after_lookup
  bootstrap_admin s = after_lookup (get_console_user_by_login username s)

-- `clock` is the reading of the clock when the loop comes to a project, and `days_before` is
-- `AddDate(0, 0, -days)`.
module _ (store : Store) (days_before : Time → ℤ → Time) (clock : Project → Time) where
  open store use {S, get_projects_with_retention, cleanup_events}

  -- The loop over the projects; an error is logged and passed over.
  unfoldable pub cleanup_loop : List Project → S → S
  cleanup_loop [] s = s
  cleanup_loop (p ∷ rest) s =
      cleanup_loop rest (cleanup_events p.id (days_before (clock p) p.retention_days) s).0

  abbrev cleanup_listed : S × Result (List Project) → S
  cleanup_listed (s, ok projects) = cleanup_loop projects s
  cleanup_listed (s, err e) = s

  unfoldable pub run_retention_cleanup : S → S
  unfolding cleanup_loop
  run_retention_cleanup s = cleanup_listed (get_projects_with_retention s)
