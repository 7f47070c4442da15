-- ===== src/Middleware/Logging.antt =====
-- `Logging` of internal/middleware/middleware.go, over the state of what is behind it and the lines
-- that were logged. A line has no duration.
use oximetric.Base.{ℕ, Str, List, [], ◌∷◌, ◌++◌, ◌≡◌, refl}
use oximetric.Http.{Step, Handler}

pub record LogLine : Type 0 where
  pub method : Str
  pub path : Str
  pub status : ℕ

-- The lines, with one for a status.
abbrev pub with_line : Str → Str → List LogLine → ℕ → List LogLine
with_line method path log status =
    log ++ record { method = method; path = path; status = status } ∷ []

module _ {S : Type 0} (method path : Str) where
  -- The line is written when the handler behind it has returned; the status is 200 until a header is
  -- written.
  abbrev log_answer : List LogLine → S × Step (Unit {0}) → (S × List LogLine) × Step (Unit {0})
  log_answer log (s, Step.reply r) = ((s, with_line method path log r.status), Step.reply r)
  log_answer log (s, Step.go done) = ((s, with_line method path log 200), Step.go done)
  log_answer log (s, Step.panic) = ((s, log), Step.panic)

  unfoldable pub logging : Handler S → Handler (S × List LogLine)
  logging next (s, log) = log_answer log (next s)

  pub logging_state :
      (next : Handler S) (s : S) (log : List LogLine) → (logging next (s, log)).0.0 ≡ (next s).0
  unfolding logging
  logging_state next s log = go (next s)
    where
      go : (done : S × Step (Unit {0})) → (log_answer log done).0.0 ≡ done.0
      go (s', Step.reply r) = refl
      go (s', Step.go done) = refl
      go (s', Step.panic) = refl
