-- ===== src/Server/Console.antt =====
-- The console's pages behind the server.
use oximetric.Base.{Str, List, some, ◌≡◌, refl}
use oximetric.Handler.Console.{
  PageData, TemplateData, ConsoleHandler, Built, new_console_handler, html_response,
}
use oximetric.Handler.Console.Shown.{IsData, console_page-IsShown}
use oximetric.Middleware.Logging.{LogLine}
use oximetric.Server.Logged.{Replies, secured, serve-Replies}
use oximetric.Server.Pages.{ConsolePage}
use oximetric.Server.Routes.{Endpoint, Request, Parts}
use oximetric.Server.{State, mux}

module _ (parts : Parts) (h : ConsoleHandler) (r : Request) (s : State parts)
    (log : List LogLine) where
  -- The page is answered without a look at the request's token, and only the log is longer.
  abbrev pub AnswersPage : Str → ConsolePage → Type 0
  AnswersPage domain p =
      (d : PageData) × Replies parts r s log s
        (secured parts r s log (html_response (h.layout_tmpl (TemplateData.for_page d))))
      × IsData parts.web domain p d

  -- A server whose console could be built answers a request for any of the ten pages with status
  -- 200, the security headers and those of a page that search engines are to leave out, and the
  -- layout executed on the page's own data: its script, and the content that its file has or, for
  -- the help page, that its template makes of the domain. No page is redirected, and no state
  -- changes but the log.
  pub serve-console_page :
      (domain : Str) (p : ConsolePage)
      → parts.console ≡ some h
      → new_console_handler parts.web domain ≡ Built.built h
      → r.endpoint ≡ Endpoint.console_page p
      → AnswersPage domain p
  unfolding mux
  serve-console_page domain p console made e =
      let (d, shown, is_data) = console_page-IsShown parts.web domain h made p in
      (d, serve-Replies parts r s log s _ (rw (e, console, shown) refl), is_data)
