-- ===== src/Server/Logged.antt =====
-- The server in front of what `mux` does: the headers that it sets, and the line that it logs.
use oximetric.Base.{Str, List, ◌++◌, ◌≡◌, refl, ap, ◌∙◌}
use oximetric.Http.{Response, Step, Handler}
use oximetric.Middleware.Guards.{with_headers}
use oximetric.Middleware.Logging.{LogLine, with_line, logging, logging_state}
use oximetric.Server.Routes.{Request, Parts}
use oximetric.Server.{State, security_headers, mux, serve}

with_headers_state :
    {S : Type 0} (hs : List (Str × Str)) (next : Handler S) (s : S)
    → (with_headers hs next s).0 ≡ (next s).0
with_headers_state {S} hs next s = go (next s)
  where
    go : (done : S × Step (Unit {0})) → (with_headers hs (λ _. done) s).0 ≡ done.0
    go (s', Step.reply r) = refl
    go (s', Step.go done) = refl
    go (s', Step.panic) = refl

module _ (parts : Parts) (r : Request) (s : State parts) (log : List LogLine) where
  -- The answer of the server, with the state behind it and the log that has one more line, which
  -- has its status.
  abbrev pub Replies : State parts → Response → Type 0
  Replies after x =
      serve parts r (s, log) ≡ ((after, with_line r.method r.path log x.status), Step.reply x)

  abbrev pub secured : Response → Response
  secured x = record x { headers = security_headers ++ x.headers }

  pub serve-Replies :
      (after : State parts) (x : Response)
      → mux parts r r.endpoint s ≡ (after, Step.reply x)
      → Replies after (secured x)
  unfolding serve logging
  serve-Replies after x e = rw e refl

  pub serve_state : (serve parts r (s, log)).0.0 ≡ (mux parts r r.endpoint s).0
  unfolding serve
  serve_state =
      ap (λ (t : State parts × List LogLine). t.0)
        (with_headers_state security_headers (logging r.method r.path (mux parts r r.endpoint))
          (s, log))
      ∙ logging_state r.method r.path (mux parts r r.endpoint) s log
