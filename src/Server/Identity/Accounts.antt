-- ===== src/Server/Identity/Accounts.antt =====
-- The routes by which a signed-in user changes the own account leave the identities alone.
use oximetric.Base.{
  ℕ, ℤ, Str, Bool, true, false, List, [], ◌∷◌, Option, none, some, ◌≡◌, refl, sym, ◌∙◌, ap, inl,
  inr, Bool-cases, ◌==◌, int_eq, eq_iff, arith, update_where,
}
use oximetric.Model.{
  Time, ConsoleUser, PasswordChangeRequest, TotpEnableRequest, TotpDisableRequest,
}
use oximetric.Storage.Store.{Result, Done, ok, err}
use oximetric.Storage.Schema.{Db, statement_keeps, refused_if, first_row}
use oximetric.Storage.Sqlite.Users.{
  get_console_user_by_id, update_user_run, update_console_user, set_user,
}
use oximetric.Storage.Sqlite.Whole.{sqlite}
use oximetric.Auth.{Claims, Crypto}
use oximetric.Http.{Response, Handler, ◌>>=◌, ◌>>◌, require, or_respond, respond, try}
use oximetric.Handler.Users.Own.{row_of, found_id, update_other}
use oximetric.Handler.Account.{me, change_password, totp_setup, totp_enable, totp_disable}
use oximetric.Server.Identity.{identity, SameIdentities, IsQuiet, itself, quiet_rules}
use oximetric.Server.Identity.Calls.{get_console_user_by_id-IsQuiet}

-- What follows a lookup of a user leaves the identities alone, while the row is as it was found.
pub record IsQuietFrom (user : ConsoleUser) (m : Handler Db) : Type 0 where
  pub at : (s : Db) → row_of user.id s ≡ ok user → SameIdentities s (m s).0

first_row-set_user :
    (u user : ConsoleUser) (us : List ConsoleUser)
    → first_row (λ r. r.id == user.id) us ≡ ok user
    → u.id ≡ user.id
    → first_row (λ r. r.id == user.id) (update_where (λ r. r.id == u.id) (set_user u) us)
      ≡ ok (set_user u user)
first_row-set_user u user [] h e = ground arith
first_row-set_user u user (r ∷ us) h e =
    ground (arith, eq_iff r.id user.id, eq_iff r.id u.id, first_row-set_user u user us)

-- The lookup finds the row that is there afterwards.
found :
    (id : ℤ) (s : Db) (user : ConsoleUser)
    → (get_console_user_by_id id s).1 ≡ ok user
    → (row_of id (get_console_user_by_id id s).0 ≡ ok user) × (user.id ≡ id)
unfolding get_console_user_by_id
found id s user h =
    statement_keeps
      (λ before after. after.1 ≡ ok user → (row_of id after.0 ≡ ok user) × (user.id ≡ id))
      (λ d. (d, row_of id d)) s (λ rest e. (e, found_id id s.console_users user e))
      (λ rest e. ground arith) h

find_user-IsQuiet :
    (id : ℤ) (r : Response) (next : ConsoleUser → Handler Db)
    → ((user : ConsoleUser) → IsQuietFrom user (next user))
    → IsQuiet itself (try (get_console_user_by_id id) r >>= next)
find_user-IsQuiet id r next h = record {
  at = λ s.
      go s (get_console_user_by_id id s) ((get_console_user_by_id-IsQuiet id).at s) (found id s);
}
  where
    go :
        (s : Db) (done : Db × Result ConsoleUser)
        → SameIdentities s done.0
        → ((user : ConsoleUser) → done.1 ≡ ok user → (row_of id done.0 ≡ ok user) × (user.id ≡ id))
        → SameIdentities s ((try (λ _. done) r >>= next) s).0
    go s (d, ok user) k f =
        let (row, e) = f user refl in λ i. (h user).at d (ap (λ j. row_of j d) e ∙ row) i ∙ k i
    go s (d, err e) k f = k

abbrev renewed : ConsoleUser → Str → Bool → Option Str → ConsoleUser
renewed user hash enabled secret = record user {
  password_hash = hash;
  totp_enabled = enabled;
  totp_secret = secret;
}

refused_same :
    (id : ℤ) (b : Bool) (before : Db) (after : Db × Done)
    → identity (row_of id after.0) ≡ identity (row_of id before)
    → identity (row_of id (refused_if b before after).0) ≡ identity (row_of id before)
unfolding refused_if
refused_same id true before after h = refl
refused_same id false before after h = h

-- The update of a user whose name, email and role are those of the row.
update_same :
    (user new : ConsoleUser) (s : Db)
    → new.id ≡ user.id
    → identity (ok new) ≡ identity (ok user)
    → row_of user.id s ≡ ok user
    → SameIdentities s (update_console_user new s).0
unfolding update_console_user update_user_run
update_same user new s e same row id = elim (Bool-cases (user.id == id)) [
  | inr other ↦ ap identity (update_other id new s (ground (arith, eq_iff user.id id)))
  | inl here ↦
      let e' : user.id ≡ id = ground (arith, eq_iff user.id id) in
      let now : row_of id s ≡ ok user = ap (λ j. row_of j s) (sym e') ∙ row in
      let after : first_row (λ r. r.id == id)
            (update_where (λ r. r.id == new.id) (set_user new) s.console_users)
          ≡ ok (set_user new user) =
        ap
          (λ j.
            first_row (λ r. r.id == j)
              (update_where (λ r. r.id == new.id) (set_user new) s.console_users))
          (sym e')
        ∙ first_row-set_user new user s.console_users row e in
      statement_keeps (λ before after. identity (row_of id after.0) ≡ identity (row_of id before))
        (update_user_run new) s
        (λ rest.
          refused_same id _ (record s { faults = rest }) _
            (ap identity after ∙ same ∙ sym (ap identity now)))
        (λ rest. refl)
]

module _ (user : ConsoleUser) where
  require_from :
      (b : Bool) (r : Response) (next : Handler Db)
      → IsQuietFrom user next
      → IsQuietFrom user (require b r >> next)
  require_from true r next h = h
  require_from false r next h = record { at = λ s row id. refl }

  or_respond_from {ℓ} :
      {A : Type ℓ} (x : Option A) (r : Response) (next : A → Handler Db)
      → ((a : A) → IsQuietFrom user (next a))
      → IsQuietFrom user (or_respond x r >>= next)
  or_respond_from none r next h = record { at = λ s row id. refl }
  or_respond_from (some a) r next h = h a

  quiet_from : (m : Handler Db) → IsQuiet itself m → IsQuietFrom user m
  quiet_from m h = record { at = λ s row. h.at s }

  update_from :
      (new : ConsoleUser) (r r' : Response)
      → new.id ≡ user.id
      → identity (ok new) ≡ identity (ok user)
      → IsQuietFrom user (try (update_console_user new) r >> respond r')
  update_from new r r' e same = record {
    at = λ s row. go s (update_console_user new s) (update_same user new s e same row);
  }
    where
      go :
          (s : Db) (done : Db × Done)
          → SameIdentities s done.0
          → SameIdentities s ((try (λ _. done) r >> respond {A = Unit {0}} r') s).0
      go s (d, ok a) h = h
      go s (d, err e) h = h

ruleset account_rules =
    (quiet_rules, find_user-IsQuiet, require_from, or_respond_from, update_from, refl)

module _ (crypto : Crypto) (claims : Option Claims) where
  pub change_password-IsQuiet :
      (body : Option PasswordChangeRequest) (salt : ℕ)
      → IsQuiet itself (change_password sqlite crypto claims body salt)
  unfolding change_password
  change_password-IsQuiet body salt = search account_rules depth 30

  pub totp_setup-IsQuiet : (seed : ℕ) → IsQuiet itself (totp_setup sqlite crypto claims seed)
  unfolding totp_setup
  totp_setup-IsQuiet seed = search account_rules depth 30

  pub totp_enable-IsQuiet :
      (body : Option TotpEnableRequest) (now : Time)
      → IsQuiet itself (totp_enable sqlite crypto claims body now)
  unfolding totp_enable
  totp_enable-IsQuiet body now = search account_rules depth 30

  pub totp_disable-IsQuiet :
      (body : Option TotpDisableRequest) → IsQuiet itself (totp_disable sqlite crypto claims body)
  unfolding totp_disable
  totp_disable-IsQuiet body = search account_rules depth 30

  pub me-IsQuiet : IsQuiet itself (me sqlite crypto claims)
  unfolding me
  me-IsQuiet = search (quiet_rules, get_console_user_by_id-IsQuiet) depth 30
