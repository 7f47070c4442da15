-- ===== src/Server/Identity.antt =====
-- Who a console user is: the name, the email and the role in the row that carries the id. Rules by
-- which code is seen to leave that alone.
pub mod Calls
pub mod Accounts
pub mod Routes
pub mod Tracking
pub mod Guards
pub mod Analytics
pub mod Kept
use oximetric.Base.{
  ℤ, Str, Bool, true, false, Option, none, some, ◌≡◌, refl, ap, ◌∙◌, if◌then◌else◌,
}
use oximetric.Model.{ConsoleUser}
use oximetric.Storage.Store.{Result, ok, err}
use oximetric.Storage.Schema.{Db, statement, statement_keeps, refused_if}
use oximetric.Http.{
  Response, Step, H, Handler, ◌>>=◌, pure, respond, require, or_respond, deref, try,
}
use oximetric.Handler.Users.Own.{row_of}

abbrev pub identity : Result ConsoleUser → Option (Str × Option Str × Str)
identity (ok u) = some (u.username, u.email, u.role)
identity (err e) = none

abbrev pub SameIdentities : Db → Db → Type 0
SameIdentities before after = (id : ℤ) → identity (row_of id after) ≡ identity (row_of id before)

-- A call of the store that leaves the identities alone, from any state; `db` is the database in it.
pub record IsQuiet {ℓ} {S : Type 0} {A : Type ℓ} (db : S → Db) (call : S → S × A) : Type ℓ where
  pub at : (s : S) → SameIdentities (db s) (db (call s).0)

-- The database itself.
abbrev pub itself : Db → Db
itself d = d

module _ {ℓ} {A : Type ℓ} where
  pub statement-IsQuiet :
      (run : Db → Db × Result A)
      → ((d : Db) → (run d).0.console_users ≡ d.console_users)
      → IsQuiet itself (statement run)
  statement-IsQuiet run h = record {
    at = λ s.
        statement_keeps (λ before after. SameIdentities before after.0) run s
          (λ rest id.
            ap (λ us. identity (row_of id (record s { console_users = us })))
              (h (record s { faults = rest })))
          (λ rest id. refl);
  }

  pub refused_if_users :
      (b : Bool) (d : Db) (done : Db × Result A)
      → done.0.console_users ≡ d.console_users
      → (refused_if b d done).0.console_users ≡ d.console_users
  unfolding refused_if
  refused_if_users true d done h = refl
  refused_if_users false d done h = h

module _ {S : Type 0} (db : S → Db) where
  module _ {ℓ} {A : Type ℓ} where
    pub pure-IsQuiet : (a : A) → IsQuiet db (pure {S = S} a)
    pure-IsQuiet a = record { at = λ s id. refl }

    pub respond-IsQuiet : (r : Response) → IsQuiet db (respond {S = S} {A = A} r)
    respond-IsQuiet r = record { at = λ s id. refl }

    pub or_respond-IsQuiet : (x : Option A) (r : Response) → IsQuiet db (or_respond {S = S} x r)
    or_respond-IsQuiet none r = record { at = λ s id. refl }
    or_respond-IsQuiet (some a) r = record { at = λ s id. refl }

    pub deref-IsQuiet : (x : Option A) → IsQuiet db (deref {S = S} x)
    deref-IsQuiet none = record { at = λ s id. refl }
    deref-IsQuiet (some a) = record { at = λ s id. refl }

    tried : (r : Response) (done : S × Result A) (s : S) → db (try (λ _. done) r s).0 ≡ db done.0
    tried r (s', ok a) s = refl
    tried r (s', err e) s = refl

    pub try-IsQuiet :
        (call : S → S × Result A) (r : Response) → IsQuiet db call → IsQuiet db (try call r)
    try-IsQuiet call r h = record {
      at = λ s id. ap (λ d. identity (row_of id d)) (tried r (call s) s) ∙ h.at s id;
    }

  pub require-IsQuiet : (b : Bool) (r : Response) → IsQuiet db (require {S = S} b r)
  require-IsQuiet true r = record { at = λ s id. refl }
  require-IsQuiet false r = record { at = λ s id. refl }

  pub if-IsQuiet :
      (b : Bool) (m k : Handler S) → IsQuiet db m → IsQuiet db k → IsQuiet db (if b then m else k)
  if-IsQuiet true m k h g = h
  if-IsQuiet false m k h g = g

  module _ {ℓ κ} {A : Type ℓ} {B : Type κ} where
    bound :
        (k : A → H S B) (s : S) (done : S × Step A)
        → ((a : A) → IsQuiet db (k a))
        → SameIdentities (db done.0) (db (((λ _. done) >>= k) s).0)
    bound k s (s', Step.go a) g = (g a).at s'
    bound k s (s', Step.reply r) g = λ id. refl
    bound k s (s', Step.panic) g = λ id. refl

    pub bind-IsQuiet :
        (m : H S A) (k : A → H S B)
        → IsQuiet db m
        → ((a : A) → IsQuiet db (k a))
        → IsQuiet db (m >>= k)
    bind-IsQuiet m k h g = record { at = λ s id. bound k s (m s) g id ∙ h.at s id }

pub ruleset quiet_rules = (
  pure-IsQuiet, respond-IsQuiet, or_respond-IsQuiet, deref-IsQuiet, try-IsQuiet, require-IsQuiet,
  if-IsQuiet, bind-IsQuiet,
)
