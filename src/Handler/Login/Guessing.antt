-- ===== src/Handler/Login/Guessing.antt =====
-- Who gets in by `Login`, and how often a TOTP code can be guessed.
use oximetric.Base.{
  ℕ, nat_beq, is_empty, refl, ◌+◌, ◌≤◌, Str, true, false, List, [], ◌∷◌, none, some, str_eq, ltb,
  lookup, insert, if◌then◌else◌, lookup-insert, eq_refl, ◌≡◌, inl, inr, Bool-cases, ltb→lt, ◌∙◌,
  arith,
}
use oximetric.Model.{Time, ConsoleUser, LoginRequest}
use oximetric.Storage.Store.{Store, ok}
use oximetric.Auth.{Crypto, check_password, generate_jwt, validate_totp_code}
use oximetric.Http.{Body, Step, write_json}
use oximetric.Handler.Login.{
  TotpTracker, Attempts, totp_window, current_tracker, check_totp_limit, record_totp_failure,
  AuthState, LoginClock, second_factor, check_second_factor, login,
}

module _ (store : Store) (crypto : Crypto) (jwt_secret : Str) where
  open store use {S, get_console_user_by_login}

  -- What a login that hands out a token has established.
  pub record IsAuthentic (clock : LoginClock) (req : LoginRequest) (s : AuthState S) (token : Str)
      (user : ConsoleUser) : Type 0 where
    pub known : (get_console_user_by_login req.login s.db).1 ≡ ok user
    pub password_matches : check_password crypto user.password_hash req.password ≡ true
    pub code_matches :
        (secret : Str)
        → second_factor user ≡ some secret
        → (validate_totp_code crypto clock.at_validate secret req.totp_code ≡ true)
          × (check_totp_limit req.login clock.at_check s.totp_attempts ≡ true)
    pub signed :
        generate_jwt crypto jwt_secret clock.at_sign user.id user.username user.role ≡ some token

  -- A login hands out a token only to a user whom the store finds under the login, whose password
  -- matches, and, where a second factor is enabled, whose code is valid at a time when the login has
  -- not used up its guesses; and the token is the one signed for that user.
  pub login-IsAuthentic :
      (clock : LoginClock) (req : LoginRequest) (s : AuthState S) (token : Str) (user : ConsoleUser)
      → (login store crypto jwt_secret clock (some req) s).1
        ≡ Step.reply (write_json 200 (Body.logged_in token user))
      → IsAuthentic clock req s token user
  unfolding login check_second_factor
  login-IsAuthentic clock req s token user h = record {
    known = ground arith;
    password_matches = ground arith;
    code_matches = λ secret e. (ground arith, ground arith);
    signed = ground arith;
  }

-- Whether a step of the login ended in "invalid TOTP code".
abbrev pub is_wrong_code : Step (Unit {0}) → ℕ
is_wrong_code (Step.reply r) = if nat_beq r.status 401 then 1 else 0
is_wrong_code (Step.go done) = 0
is_wrong_code Step.panic = 0

-- One login after the other, past its password check.
abbrev pub Logins : Type 0
Logins = List (LoginClock × LoginRequest)

module _ (store : Store) (crypto : Crypto) (jwt_secret secret : Str) where
  -- The second factor's part of one login.
  abbrev pub guess :
      LoginClock → LoginRequest → AuthState store.S → AuthState store.S × Step (Unit {0})
  guess clock req s = check_second_factor store crypto jwt_secret clock req (some secret) s

  -- How many of the logins had their code looked at and found wrong.
  pub wrong_codes : Logins → AuthState store.S → ℕ
  wrong_codes [] s = 0
  wrong_codes ((clock, req) ∷ rest) s =
      is_wrong_code (guess clock req s).1 + wrong_codes rest (guess clock req s).0

  -- All logins name the same login, come with a code that is not valid, and read the clock before
  -- the end of a window.
  abbrev pub AllWrong : Str → Time → Logins → Type 0
  AllWrong key end [] = Unit {0}
  AllWrong key end ((clock, req) ∷ rest) =
      ((req.login ≡ key)
        × (validate_totp_code crypto clock.at_validate secret req.totp_code ≡ false)
        × (clock.at_check ≤ end)
        × (clock.at_failure ≤ end))
      × AllWrong key end rest

  module _ (key : Str) where
    -- The tracker of a window that is not over.
    check_current :
        (clock : LoginClock) (attempts : Attempts) (t : TotpTracker)
        → lookup key attempts ≡ some t
        → clock.at_check ≤ t.reset_at
        → check_totp_limit key clock.at_check attempts ≡ ltb t.failures 5
    unfolding check_totp_limit
    check_current clock attempts t e h = ground arith

    record_current :
        (clock : LoginClock) (attempts : Attempts) (t : TotpTracker)
        → lookup key attempts ≡ some t
        → clock.at_failure ≤ t.reset_at
        → record_totp_failure key clock.at_failure clock.at_reset attempts
          ≡ insert key (record t { failures = t.failures + 1 }) attempts
    unfolding record_totp_failure
    record_current clock attempts t e h = ground arith

    lookup_inserted :
        (attempts : Attempts) (t : TotpTracker) → lookup key (insert key t attempts) ≡ some t
    lookup_inserted attempts t = lookup-insert key key t attempts ∙ rw (eq_refl key) refl

    -- A wrong code under the tracker: not given, counted, or refused unseen.
    wrong_codes-cons :
        (clock : LoginClock) (req : LoginRequest) (rest : Logins) (s : AuthState store.S)
        (t : TotpTracker)
        → lookup key s.totp_attempts ≡ some t
        → req.login ≡ key
        → validate_totp_code crypto clock.at_validate secret req.totp_code ≡ false
        → clock.at_check ≤ t.reset_at
        → clock.at_failure ≤ t.reset_at
        → wrong_codes ((clock, req) ∷ rest) s ≡ (
            if is_empty req.totp_code
            then wrong_codes rest s
            else if ltb t.failures 5
            then 1
              + wrong_codes rest (record s {
                totp_attempts = insert key (record t { failures = t.failures + 1 }) s.totp_attempts;
              })
            else wrong_codes rest s)
    unfolding wrong_codes check_second_factor
    wrong_codes-cons clock req rest s t e l v c f = elim (Bool-cases (is_empty req.totp_code)) [
      | inl none_given ↦ rw none_given (omega arith)
      | inr given ↦ elim (Bool-cases (ltb t.failures 5)) [
        | inl room ↦
            rw
              (
                given,
                l,
                check_current clock s.totp_attempts t e c,
                room,
                v,
                record_current clock s.totp_attempts t e f,
              )
              (omega arith)
        | inr full ↦ rw (given, l, check_current clock s.totp_attempts t e c, full) (omega arith)
      ]
    ]

    wrong_codes-window :
        (logins : Logins) (s : AuthState store.S) (t : TotpTracker)
        → lookup key s.totp_attempts ≡ some t
        → t.failures ≤ 5
        → AllWrong key t.reset_at logins
        → t.failures + wrong_codes logins s ≤ 5
    unfolding wrong_codes
    wrong_codes-window [] s t e h w = omega arith
    wrong_codes-window ((clock, req) ∷ rest) s t e h ((l, v, c, f), w) =
        let t' : TotpTracker = record t { failures = t.failures + 1 } in
        let s' : AuthState store.S = record s { totp_attempts = insert key t' s.totp_attempts } in
        rw (wrong_codes-cons clock req rest s t e l v c f)
          (elim (Bool-cases (is_empty req.totp_code)) [
            | inl none_given ↦ rw none_given (wrong_codes-window rest s t e h w)
            | inr given ↦ elim (Bool-cases (ltb t.failures 5)) [
              | inl room ↦
                  rw (given, room)
                    (omega (
                      arith,
                      wrong_codes-window rest s' t' (lookup_inserted s.totp_attempts t')
                          (omega (arith, ltb→lt t.failures 5 room)) w,
                    ))
              | inr full ↦ rw (given, full) (wrong_codes-window rest s t e h w)
            ]
          ])

    -- The first guess under no tracker is looked at and opens a window.
    guess_first :
        (clock : LoginClock) (req : LoginRequest) (s : AuthState store.S)
        → current_tracker key clock.at_check s.totp_attempts ≡ none
        → clock.at_check ≤ clock.at_failure
        → (check_totp_limit key clock.at_check s.totp_attempts ≡ true)
          × (record_totp_failure key clock.at_failure clock.at_reset s.totp_attempts
              ≡ insert key
                  (record { failures = 1; reset_at = clock.at_reset + totp_window })
                  s.totp_attempts)
    unfolding check_totp_limit record_totp_failure
    guess_first clock req s e h = (ground arith, ground arith)

    -- From a state in which the login has no running window, of any run of logins under it whose
    -- codes are not valid, and whose readings of the clock fall before the end of the window that the
    -- first one opens, at most five are told that the code is wrong; the others learn nothing of
    -- their codes. The first comes with a code. The password checks have passed, and logins are
    -- served one at a time: the check and the record of one are not interleaved with another's.
    pub guesses_bounded :
        (clock : LoginClock) (req : LoginRequest) (logins : Logins) (s : AuthState store.S)
        → current_tracker key clock.at_check s.totp_attempts ≡ none
        → clock.at_check ≤ clock.at_failure
        → is_empty req.totp_code ≡ false
        → req.login ≡ key
        → validate_totp_code crypto clock.at_validate secret req.totp_code ≡ false
        → AllWrong key (clock.at_reset + totp_window) logins
        → wrong_codes ((clock, req) ∷ logins) s ≤ 5
    unfolding wrong_codes check_second_factor
    guesses_bounded clock req logins s e h given l v w =
        let t : TotpTracker = record { failures = 1; reset_at = clock.at_reset + totp_window } in
        let s' : AuthState store.S = record s { totp_attempts = insert key t s.totp_attempts } in
        let (open_, recorded) = guess_first clock req s e h in
        rw (given, l, open_, v, recorded)
          (omega (
            arith,
            wrong_codes-window logins s' t (lookup_inserted s.totp_attempts t) (omega arith) w,
          ))
