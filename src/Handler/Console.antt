-- ===== src/Handler/Console.antt =====
-- internal/handler/console.go: the console's pages, which are read and parsed once. Parameters: the
-- embedded files, html/template, and what net/http answers to a redirect and for a file. A template
-- that is parsed is the function that executes it. A panic of `mustRead` keeps the file's name and not
-- the text of the error.
pub mod Shown
use oximetric.Base.{
  ℕ, Str, lit, Bool, true, false, List, [], ◌∷◌, ◌++◌, Option, none, some, ◌==◌, str_eq, is_empty,
  has_suffix, lookup, if◌then◌else◌,
}
use oximetric.Http.{Body, Response}

pub record PageData : Type 0 where
  pub title : Str
  pub content : Str
  pub scripts : Str
  pub hide_controls : Bool

-- What a template is executed on.
pub data TemplateData : Type 0 where
  no_data : TemplateData
  for_domain : Str → TemplateData
  for_page : PageData → TemplateData

abbrev pub Template : Type 0
Template = TemplateData → Str

pub record Web : Type 0 where
  -- fs.Sub gives no error
  pub has_static : Bool
  -- fs.ReadFile under it
  pub read_file : Str → Option Str
  -- template.New(…).Parse
  pub parse : Str → Option Template
  pub html_escape : Str → Str
  -- http.Redirect to a path with a status
  pub redirect : Str → ℕ → Response
  -- the file server, after some headers were set, for a path
  pub serve_file : List (Str × Str) → Str → Response

pub record ConsoleHandler : Type 0 where
  pub login_tmpl : Template
  pub layout_tmpl : Template
  pub pages : List (Str × PageData)
  pub robots_txt : Str
  pub domain : Str

-- What a constructor returns: a value, an error, or a panic with a message.
pub data Built {ℓ} (A : Type ℓ) : Type ℓ where
  built : A → Built A
  failed : Built A
  panicked : Str → Built A

infixl 5 ◌>>=◌
abbrev pub ◌>>=◌ {ℓ κ} : {A : Type ℓ} {B : Type κ} → Built A → (A → Built B) → Built B
Built.built a >>= f = f a
Built.failed >>= f = Built.failed
Built.panicked m >>= f = Built.panicked m

-- One entry of the map of pages as the source writes it.
pub record PageSource : Type 0 where
  pub path : Str
  pub title : Str
  pub template : Str
  pub script : Str
  pub hide_controls : Bool

abbrev entry : Str → Str → Str → Str → Bool → PageSource
entry path title template script hide_controls = record {
  path = path;
  title = title;
  template = template;
  script = script;
  hide_controls = hide_controls;
}

abbrev pub page_sources : List PageSource
page_sources =
    entry (lit "/dashboard") (lit "Dashboard") (lit "templates/dashboard.html")
      (lit "/static/js/dashboard.js") false
    ∷ entry (lit "/events") (lit "Events") (lit "templates/events.html")
        (lit "/static/js/events.js") false
    ∷ entry (lit "/devices") (lit "Devices") (lit "templates/devices.html")
        (lit "/static/js/devices.js") false
    ∷ entry (lit "/geo") (lit "Geography") (lit "templates/geo.html") (lit "/static/js/geo.js")
        false
    ∷ entry (lit "/users-analytics") (lit "Users") (lit "templates/users-analytics.html")
        (lit "/static/js/users-analytics.js") false
    ∷ entry (lit "/projects") (lit "Projects") (lit "templates/projects.html")
        (lit "/static/js/projects.js") true
    ∷ entry (lit "/console-users") (lit "Console Users") (lit "templates/console-users.html")
        (lit "/static/js/console-users.js") true
    ∷ entry (lit "/account") (lit "Account") (lit "templates/account.html")
        (lit "/static/js/account.js") true
    ∷ entry (lit "/about") (lit "About") (lit "templates/about.html") (lit "/static/js/about.js")
        true
    ∷ []

-- `noIndex`
abbrev pub no_index : Str × Str
no_index = (lit "X-Robots-Tag", lit "noindex, nofollow")

abbrev pub content_type : Str → Str × Str
content_type t = (lit "Content-Type", t)

-- A page that is kept from search engines.
abbrev pub html_response : Str → Response
html_response html = record {
  status = 200;
  headers = no_index ∷ content_type (lit "text/html; charset=utf-8") ∷ [];
  body = Body.html html;
}

module _ (web : Web) where
  open web use {has_static, read_file, parse, html_escape, redirect, serve_file}

  abbrev pub must_read : Str → Built Str
  must_read name = elim (read_file name) [
    | none ↦ Built.panicked (lit "console: missing " ++ name)
    | some text ↦ Built.built text
  ]

  abbrev pub script_tag : Str → Str
  script_tag path = lit "<script src=\"" ++ (html_escape path ++ lit "\"></script>")

  -- Parse, whose error is returned.
  abbrev pub parsed : Str → Built Template
  parsed text = elim (parse text) [ none ↦ Built.failed | some t ↦ Built.built t ]

  abbrev pub load_page : PageSource → Built (Str × PageData)
  load_page s = do
    content ← must_read s.template
    Built.built (
      s.path,
      record {
        title = s.title;
        content = content;
        scripts = script_tag s.script;
        hide_controls = s.hide_controls;
      },
    )

  -- The entries of the map, in the source's order.
  pub load_pages : List PageSource → Built (List (Str × PageData))
  load_pages [] = Built.built []
  load_pages (s ∷ rest) = do page ← load_page s; pages ← load_pages rest; Built.built (page ∷ pages)

  abbrev pub help_page : Template → Str → Str × PageData
  help_page help_content domain = (
    lit "/help",
    record {
      title = lit "Help";
      content = help_content (TemplateData.for_domain domain);
      scripts = script_tag (lit "/static/js/help.js");
      hide_controls = true;
    },
  )

  -- The bytes of robots.txt, whose error is dropped.
  abbrev pub robots : Option Str → Str
  robots none = []
  robots (some text) = text

  abbrev pub or_localhost : Str → Str
  or_localhost domain = if is_empty domain then lit "http://localhost:6940" else domain

  -- Behind fs.Sub.
  unfoldable pub read_console : Str → Built ConsoleHandler
  unfolding load_pages
  read_console domain = do
    login ← must_read (lit "templates/login.html")
    login_tmpl ← parsed login
    layout ← must_read (lit "templates/layout.html")
    layout_tmpl ← parsed layout
    help ← must_read (lit "templates/help.html")
    help_content ← parsed help
    pages ← load_pages page_sources
    Built.built (record {
      login_tmpl = login_tmpl;
      layout_tmpl = layout_tmpl;
      pages = pages ++ help_page help_content (or_localhost domain) ∷ [];
      robots_txt = robots (read_file (lit "robots.txt"));
      domain = or_localhost domain;
    })

  unfoldable pub new_console_handler : Str → Built ConsoleHandler
  unfolding read_console
  new_console_handler domain = if has_static then read_console domain else Built.failed

  module _ (h : ConsoleHandler) where
    abbrev pub console_login : Response
    console_login = html_response (h.login_tmpl TemplateData.no_data)

    unfoldable pub console_page : Str → Response
    console_page path = elim (lookup path h.pages) [
      | none ↦ redirect (lit "/dashboard") 302
      | some found ↦ html_response (h.layout_tmpl (TemplateData.for_page found))
    ]

    abbrev pub static_headers : Str → List (Str × Str)
    static_headers path =
        if has_suffix path (lit ".css")
        then content_type (lit "text/css; charset=utf-8") ∷ []
        else if has_suffix path (lit ".js")
        then content_type (lit "application/javascript; charset=utf-8") ∷ []
        else []

    abbrev pub static_file : Str → Response
    static_file path = serve_file (static_headers path) path

    abbrev pub robots_response : Response
    robots_response = record {
      status = 200;
      headers = content_type (lit "text/plain; charset=utf-8") ∷ [];
      body = Body.text h.robots_txt;
    }
