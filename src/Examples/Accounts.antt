-- ===== src/Examples/Accounts.antt =====
-- One administrator with a second factor, and a toy of the cryptography: every password and code
-- matches, and a token is its claims, written out.
use oximetric.Base.{
  zero, suc, take, ◌<◌, All, ℕ, zero, suc, Bool, List, ◌+◌, ◌≤◌, ℤ, pos, negsuc, Str, lit, true,
  false, is_empty, [], ◌∷◌, ◌++◌, Option, none, some, ◌≡◌, ◌⊎◌, refl, arith, if◌then◌else◌, ltb,
  length, take, drop, take-append, drop-append, str_beq, trim_prefix, lookup,
}
use oximetric.Model.{Time, ConsoleUser, LoginRequest}
use oximetric.Storage.Schema.{Db, statement}
use oximetric.Storage.Sqlite.Users.{get_console_user_by_login}
use oximetric.Storage.Sqlite.Whole.{sqlite}
use oximetric.Auth.Drawn.{generate_token_differs}
use oximetric.Auth.{
  generate_token, hex_encode, Claims, Crypto, generate_jwt, validate_jwt, jwt_lifetime,
  check_password, validate_totp_code,
}
use oximetric.Http.{Body, Response, Step, Handler, respond, write_json, write_status}
use oximetric.Middleware.Guards.{rank}
use oximetric.Middleware.Guards.Laws.{ParsesSigned, guarded, guarded-generate_jwt, guarded_decides}
use oximetric.Handler.Users.{update_user, delete_user}
use oximetric.Handler.Users.Own.{row_of, delete_user_own, update_user_own}
use oximetric.Handler.Login.{
  AuthState, LoginClock, current_tracker, check_totp_limit, check_second_factor, login,
}
use oximetric.Handler.Login.Guessing.{IsAuthentic, login-IsAuthentic, wrong_codes, guesses_bounded}

abbrev pub sign_of : ℤ → ℕ
sign_of (pos n) = 0
sign_of (negsuc n) = 1

abbrev pub size_of : ℤ → ℕ
size_of (pos n) = n
size_of (negsuc n) = n

abbrev int_of : ℕ → ℕ → ℤ
int_of zero n = pos n
int_of (suc _) n = negsuc n

int_of_lem : (z : ℤ) → int_of (sign_of z) (size_of z) ≡ z
int_of_lem (pos n) = refl
int_of_lem (negsuc n) = refl

abbrev pub written : Claims → Str
written c =
    sign_of c.user_id
      ∷ size_of c.user_id
      ∷ c.expires_at
      ∷ c.issued_at
      ∷ length c.username
      ∷ c.username
    ++ c.role

abbrev read : Time → Str → Option (Claims × Bool)
read now (sign ∷ size ∷ expires_at ∷ issued_at ∷ n ∷ rest) =
    if ltb now expires_at
    then some (
      record {
        user_id = int_of sign size;
        username = take n rest;
        role = drop n rest;
        expires_at = expires_at;
        issued_at = issued_at;
      },
      true,
    )
    else none
read now _ = none

abbrev pub toy : Crypto
toy = record {
  bcrypt_generate = λ salt password. some password;
  bcrypt_compare = λ hash password. true;
  totp_validate = λ now code secret. true;
  totp_generate = λ seed issuer account. none;
  jwt_sign = λ key claims. some (written claims);
  jwt_parse = λ now token key_of. read now token;
}

read-written :
    (now : Time) (c : Claims) → ltb now c.expires_at ≡ true → read now (written c) ≡ some (c, true)
read-written now c h =
    rw (h, take-append c.username c.role, drop-append c.username c.role, int_of_lem c.user_id) refl

toy-ParsesSigned : ParsesSigned toy
toy-ParsesSigned key token claims now key_of signed key_is fresh =
    let e : written claims ≡ token = cc in
    let early : ltb now claims.expires_at ≡ true = ground arith in
    (claims, (refl, refl, refl), rw (← e) (read-written now claims early))

abbrev root : ConsoleUser
root = record {
  id = pos 1;
  username = lit "root";
  email = none;
  password_hash = lit "h";
  role = lit "admin";
  totp_secret = some (lit "s");
  totp_enabled = true;
  created_at = 3;
}

abbrev pub accounts : Db
accounts = record {
  projects = [];
  tokens = [];
  console_users = root ∷ [];
  app_users = [];
  devices = [];
  events = [];
  properties = [];
  faults = [];
  now = 9;
}

abbrev root_claims : Claims
root_claims = record {
  user_id = pos 1;
  username = lit "root";
  role = lit "admin";
  expires_at = 5 + jwt_lifetime;
  issued_at = 5;
}

-- A route that answers with the id of its caller.
abbrev who : Option Claims → Handler Db
who none = respond (write_status 500)
who (some c) = respond (write_json 200 (Body.identified c.user_id))

root_signed :
    generate_jwt toy (lit "key") 5 (pos 1) (lit "root") (lit "admin") ≡ some (written root_claims)
unfolding generate_jwt
root_signed = refl

admin_enough : rank (lit "manager") ≤ rank (lit "admin")
unfolding rank lit str_beq
admin_enough = omega arith

guarded-generate_jwt_example :
    (claims : Claims) × ((claims.user_id ≡ pos 1)
      × (claims.username ≡ lit "root")
      × (claims.role ≡ lit "admin"))
    × (guarded toy (lit "key") (lit "manager") 7 (lit "Bearer " ++ written root_claims) who accounts
        ≡ who (some claims) accounts)
guarded-generate_jwt_example =
    guarded-generate_jwt toy (lit "key") (lit "manager") 5 7 (pos 1) (lit "root") (lit "admin")
      (written root_claims) who accounts toy-ParsesSigned root_signed (omega arith) admin_enough

guarded_decides_example :
    ((claims : Claims) × (validate_jwt toy
          (lit "key")
          7
          (trim_prefix (lit "Bearer x") (lit "Bearer "))
        ≡ some claims)
      × (rank (lit "admin") ≤ rank claims.role)
      × (guarded toy (lit "key") (lit "admin") 7 (lit "Bearer x") who accounts
          ≡ who (some claims) accounts))
    ⊎ ((r : Response) × (guarded toy (lit "key") (lit "admin") 7 (lit "Bearer x") who accounts
          ≡ (accounts, Step.reply r))
        × ((r.status ≡ 401) ⊎ (r.status ≡ 403)))
guarded_decides_example =
    guarded_decides toy (lit "key") (lit "admin") 7 (lit "Bearer x") who accounts

delete_user_own_example :
    row_of (pos 1) (delete_user sqlite toy (some root_claims) (lit "1") accounts).0
    ≡ row_of (pos 1) accounts
delete_user_own_example = delete_user_own toy root_claims (lit "1") accounts

update_user_own_example :
    row_of (pos 1) (update_user sqlite toy (some root_claims) (lit "2") none accounts).0
    ≡ row_of (pos 1) accounts
update_user_own_example = update_user_own toy root_claims (lit "2") accounts none

abbrev clock : LoginClock
clock = record { at_check = 5; at_validate = 5; at_failure = 5; at_reset = 5; at_sign = 5 }

abbrev typed : LoginRequest
typed = record { login = lit "root"; password = lit "p"; totp_code = lit "123456" }

abbrev idle : AuthState Db
idle = record { db = accounts; totp_attempts = [] }

logged_in :
    (login sqlite toy (lit "key") clock (some typed) idle).1
    ≡ Step.reply (write_json 200 (Body.logged_in (written root_claims) root))
unfolding login check_second_factor check_totp_limit current_tracker lookup
    get_console_user_by_login statement check_password validate_totp_code generate_jwt lit str_beq
logged_in = refl

login-IsAuthentic_example :
    IsAuthentic sqlite toy (lit "key") clock typed idle (written root_claims) root
login-IsAuthentic_example =
    login-IsAuthentic sqlite toy (lit "key") clock typed idle (written root_claims) root logged_in

no_tracker : current_tracker (lit "root") 5 [] ≡ none
unfolding current_tracker lookup
no_tracker = refl

-- The toy with codes that never match.
abbrev strict : Crypto
strict = record toy { totp_validate = λ now code secret. false }

not_valid : validate_totp_code strict 5 (lit "s") (lit "123456") ≡ false
unfolding validate_totp_code
not_valid = refl

given : is_empty typed.totp_code ≡ false
unfolding lit
given = refl

guesses_bounded_example :
    wrong_codes sqlite strict
      (lit "key")
      (lit "s")
      ((clock, typed) ∷ (clock, typed) ∷ (clock, typed) ∷ [])
      idle
    ≤ 5
guesses_bounded_example =
    guesses_bounded sqlite strict (lit "key") (lit "s") (lit "root") clock typed
      ((clock, typed) ∷ (clock, typed) ∷ []) idle no_tracker (omega arith) given refl not_valid
      (
        (refl, not_valid, omega arith, omega arith),
        ((refl, not_valid, omega arith, omega arith), tt),
      )

abbrev sevens : ℕ → List ℕ
sevens zero = []
sevens (suc n) = 7 ∷ sevens n

sevens-All : (n : ℕ) → All (λ b. b < 256) (sevens n)
sevens-All zero = tt
sevens-All (suc n) = (omega arith, sevens-All n)

token_of_32 : generate_token (some (sevens 32)) ≡ some (hex_encode (sevens 32))
unfolding generate_token
token_of_32 = refl

token_of_33 : generate_token (some (sevens 33)) ≡ some (hex_encode (sevens 32))
unfolding generate_token
token_of_33 = refl

generate_token_differs_example :
    (take 32 (sevens 32) ≡ take 32 (sevens 33)) × (length (hex_encode (sevens 32)) ≡ 64)
generate_token_differs_example =
    generate_token_differs (sevens 32) (sevens 33) (hex_encode (sevens 32)) (sevens-All 32)
      (sevens-All 33) token_of_32 token_of_33
