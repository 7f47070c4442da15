-- ===== src/Examples/Pages.antt =====
-- A request for the help page, and a token that is switched off.
use oximetric.Base.{lit, pos, [], some, ◌≡◌, refl, str_beq, str_eq, int_beq, ◌==◌, atoi, none}
use oximetric.Storage.Schema.{TokenRow, statement, first_row}
use oximetric.Storage.Sqlite.Tokens.{
  get_project_token_by_token, list_project_tokens, update_project_token,
}
use oximetric.Storage.Store.{ok}
use oximetric.Http.{Step, write_status, unauthorized, respond}
use oximetric.Middleware.Guards.{token_auth}
use oximetric.Handler.Console.{ConsoleHandler, Built, read_console, new_console_handler}
use oximetric.Handler.Tokens.{disable_token}
use oximetric.Handler.Tokens.Disabled.{disabled, disable_token_refused}
use oximetric.Server.Pages.{ConsolePage}
use oximetric.Server.Routes.{Routed, Endpoint, Request, Parts}
use oximetric.Server.Console.{AnswersPage, serve-console_page}
use oximetric.Examples.Console.{web}
use oximetric.Examples.Server.{parts, started, request}
use oximetric.Examples.Guards.{row, with_token}

abbrev console : ConsoleHandler
console = record {
  login_tmpl = λ on. lit "templates/login.html";
  layout_tmpl = λ on. lit "templates/layout.html";
  pages = [];
  robots_txt = lit "robots.txt";
  domain = lit "d";
}

abbrev of_built : Built ConsoleHandler → ConsoleHandler
of_built (Built.built h) = h
of_built _ = console

abbrev built : ConsoleHandler
built = of_built (new_console_handler web (lit "d"))

abbrev with_console : Parts
with_console = record parts { console = some built }

abbrev for_help : Request
for_help = record (request [] Routed.me) { endpoint = Endpoint.console_page ConsolePage.help }

is_built : new_console_handler web (lit "d") ≡ Built.built built
unfolding new_console_handler read_console
is_built = refl

serve-console_page_example :
    AnswersPage with_console built for_help started [] (lit "d") ConsolePage.help
serve-console_page_example =
    serve-console_page with_console built for_help started [] (lit "d") ConsolePage.help refl
      is_built refl

switched_off :
    (disabled (λ s. none) (λ s. s) (lit "4") (lit "1") 9 with_token).1
    ≡ Step.reply (write_status 200)
unfolding disable_token list_project_tokens update_project_token statement lit atoi int_beq
switched_off = refl

token_id : atoi (lit "1") ≡ some (pos 1)
unfolding atoi lit
token_id = refl

found : first_row (λ (r : TokenRow). r.token == lit "t") with_token.tokens ≡ ok row
unfolding lit str_beq
found = refl

disable_token_refused_example :
    token_auth get_project_token_by_token
      (lit "t")
      (lit "http://x.b")
      (λ id. respond (write_status 200))
      (disabled (λ s. none) (λ s. s) (lit "4") (lit "1") 9 with_token).0
    ≡ (
      (disabled (λ s. none) (λ s. s) (lit "4") (lit "1") 9 with_token).0,
      Step.reply (unauthorized (lit "token is disabled")),
    )
unfolding lit
disable_token_refused_example =
    disable_token_refused (λ s. none) (λ s. s) (lit "4") (lit "1") 9 with_token (lit "t")
      (lit "http://x.b") row (λ id. respond (write_status 200)) refl refl found token_id
      switched_off
