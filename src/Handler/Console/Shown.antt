-- ===== src/Handler/Console/Shown.antt =====
-- What a console that could be built has under the path of a page.
use oximetric.Base.{
  Str, lit, List, [], ◌∷◌, ◌++◌, Option, none, some, ◌==◌, str_eq, str_beq, lookup, ◌≡◌, refl, sym,
  ap, Bool-cases, Option-cases, inl, inr, if◌then◌else◌,
}
use oximetric.Handler.Console.{
  PageData, TemplateData, Template, Web, ConsoleHandler, Built, ◌>>=◌, PageSource, page_sources,
  must_read, script_tag, parsed, load_page, load_pages, help_page, or_localhost, read_console,
  new_console_handler, html_response, console_page,
}
use oximetric.Server.Pages.{ConsolePage, path_of}

built_bind :
    {A B : Type 0} (m : Built A) (f : A → Built B) (b : B)
    → (m >>= f) ≡ Built.built b
    → (a : A) × (m ≡ Built.built a) × (f a ≡ Built.built b)
built_bind (Built.built a) f b h = (a, refl, h)
built_bind Built.failed f b h = cc
built_bind (Built.panicked m) f b h = cc

same_built : {A : Type 0} (a b : A) → Built.built a ≡ Built.built b → a ≡ b
same_built a b h = cc

-- The entry that the source has for a path.
find_source : Str → List PageSource → Option PageSource
find_source path [] = none
find_source path (s ∷ rest) = if s.path == path then some s else find_source path rest

module _ (web : Web) where
  must_read-built :
      (name text : Str) → must_read web name ≡ Built.built text → web.read_file name ≡ some text
  must_read-built name text h = elim (Option-cases (web.read_file name)) [
    | inl e ↦ cc (rw (must_read, e) at h)
    | inr (found, e) ↦ rw e (cc (rw (must_read, e) at h))
  ]

  parsed-built :
      (text : Str) (t : Template) → parsed web text ≡ Built.built t → web.parse text ≡ some t
  parsed-built text t h = elim (Option-cases (web.parse text)) [
    | inl e ↦ cc (rw (parsed, e) at h)
    | inr (found, e) ↦ rw e (cc (rw (parsed, e) at h))
  ]

  -- The data of an entry with a content.
  abbrev data_of : PageSource → Str → PageData
  data_of s content = record {
    title = s.title;
    content = content;
    scripts = script_tag web s.script;
    hide_controls = s.hide_controls;
  }

  lookup-load_pages :
      (sources : List PageSource) (pages more : List (Str × PageData)) (path : Str) (s : PageSource)
      → load_pages web sources ≡ Built.built pages
      → find_source path sources ≡ some s
      → (content : Str) × (web.read_file s.template ≡ some content)
        × (lookup path (pages ++ more) ≡ some (data_of s content))
  unfolding load_pages find_source lookup
  lookup-load_pages [] pages more path s h f = cc
  lookup-load_pages (t ∷ sources) pages more path s h f =
      let (page, hp, h1) = built_bind (load_page web t) _ _ h in
      let (content, hc, h2) = built_bind (must_read web t.template) _ _ hp in
      let (ps, hps, h3) = built_bind (load_pages web sources) _ _ h1 in
      let q : pages ≡ (t.path, data_of t content) ∷ ps = cc in
      elim (Bool-cases (t.path == path)) [
        | inl e ↦
            let r : t ≡ s = cc (rw e at f) in
            rw (← r) (content, must_read-built t.template content hc, rw (q, e) refl)
        | inr e ↦
            let (c, found, l) = lookup-load_pages sources ps more path s hps (rw e at f) in
            (c, found, rw (q, e) l)
      ]

  lookup-load_pages_other :
      (sources : List PageSource) (pages more : List (Str × PageData)) (path : Str)
      → load_pages web sources ≡ Built.built pages
      → find_source path sources ≡ none
      → lookup path (pages ++ more) ≡ lookup path more
  unfolding load_pages find_source lookup
  lookup-load_pages_other [] pages more path h f = let q : pages ≡ [] = cc in rw q refl
  lookup-load_pages_other (t ∷ sources) pages more path h f =
      let (page, hp, h1) = built_bind (load_page web t) _ _ h in
      let (content, hc, h2) = built_bind (must_read web t.template) _ _ hp in
      let (ps, hps, h3) = built_bind (load_pages web sources) _ _ h1 in
      let q : pages ≡ (t.path, data_of t content) ∷ ps = cc in
      elim (Bool-cases (t.path == path)) [
        | inl e ↦ cc (rw e at f)
        | inr e ↦ rw (q, e) (lookup-load_pages_other sources ps more path hps (rw e at f))
      ]

  -- The content of a page: the file that is named like the path; that of the help page is a template,
  -- executed on the domain.
  abbrev pub HasContent : Str → ConsolePage → Str → Type 0
  HasContent domain ConsolePage.help content =
      (source : Str) × (t : Template) × (web.read_file (lit "templates/help.html") ≡ some source)
      × (web.parse source ≡ some t)
      × (content ≡ t (TemplateData.for_domain (or_localhost web domain)))
  HasContent domain p content =
      web.read_file (lit "templates" ++ (path_of p ++ lit ".html")) ≡ some content

  -- What the layout is executed on for a page.
  pub record IsData (domain : Str) (p : ConsolePage) (d : PageData) : Type 0 where
    pub content : HasContent domain p d.content
    pub scripts : d.scripts ≡ script_tag web (lit "/static/js" ++ (path_of p ++ lit ".js"))

  module _ (domain : Str) (h : ConsoleHandler) where
    -- The path of a page gives the layout, executed on its data.
    abbrev pub IsShown : ConsolePage → Type 0
    IsShown p =
        (d : PageData) × (console_page web h (path_of p)
          ≡ html_response (h.layout_tmpl (TemplateData.for_page d)))
        × IsData domain p d

    -- The pages of the files come first, and the help page is behind them.
    record IsRead : Type 0 where
      files : List (Str × PageData)
      source : Str
      help : Template
      loaded : load_pages web page_sources ≡ Built.built files
      found : web.read_file (lit "templates/help.html") ≡ some source
      is_parsed : web.parse source ≡ some help
      pages : h.pages ≡ files ++ help_page web help (or_localhost web domain) ∷ []

    read_console-IsRead : read_console web domain ≡ Built.built h → IsRead
    unfolding read_console
    read_console-IsRead e =
        let (login, e1, r1) = built_bind (must_read web (lit "templates/login.html")) _ _ e in
        let (login_tmpl, e2, r2) = built_bind (parsed web login) _ _ r1 in
        let (layout, e3, r3) = built_bind (must_read web (lit "templates/layout.html")) _ _ r2 in
        let (layout_tmpl, e4, r4) = built_bind (parsed web layout) _ _ r3 in
        let (source, e5, r5) = built_bind (must_read web (lit "templates/help.html")) _ _ r4 in
        let (help, e6, r6) = built_bind (parsed web source) _ _ r5 in
        let (files, e7, r7) = built_bind (load_pages web page_sources) _ _ r6 in
        record {
          files = files;
          source = source;
          help = help;
          loaded = e7;
          found = must_read-built (lit "templates/help.html") source e5;
          is_parsed = parsed-built source help e6;
          pages = sym (ap (λ (c : ConsoleHandler). c.pages) (same_built _ h r7));
        }

    file-IsShown :
        (p : ConsolePage) (s : PageSource)
        → IsRead
        → find_source (path_of p) page_sources ≡ some s
        → ((content : Str) → web.read_file s.template ≡ some content → HasContent domain p content)
        → s.script ≡ lit "/static/js" ++ (path_of p ++ lit ".js")
        → IsShown p
    unfolding console_page
    file-IsShown p s r f has script =
        let (content, c, l) =
          lookup-load_pages page_sources r.files
            (help_page web r.help (or_localhost web domain) ∷ []) (path_of p) s r.loaded f in
        (
          data_of s content,
          rw (console_page, r.pages, l) refl,
          record { content = has content c; scripts = ap (script_tag web) script },
        )

    help-IsShown : IsRead → find_source (lit "/help") page_sources ≡ none → IsShown ConsolePage.help
    unfolding console_page lookup str_beq lit
    help-IsShown r f =
        let l =
          lookup-load_pages_other page_sources r.files
            (help_page web r.help (or_localhost web domain) ∷ []) (lit "/help") r.loaded f in
        (
          (help_page web r.help (or_localhost web domain)).1,
          rw (console_page, r.pages, l) refl,
          record { content = (r.source, r.help, r.found, r.is_parsed, refl); scripts = refl },
        )

    new_console_handler-IsRead : new_console_handler web domain ≡ Built.built h → IsRead
    unfolding new_console_handler
    new_console_handler-IsRead e = elim (Bool-cases web.has_static) [
      | inl on ↦ read_console-IsRead (rw (new_console_handler, on) at e)
      | inr off ↦ cc (rw (new_console_handler, off) at e)
    ]

    -- A console that could be built shows under the path of each page the layout, executed on the
    -- data of that page, with the headers for a page, and redirects none of them.
    pub console_page-IsShown :
        new_console_handler web domain ≡ Built.built h → (p : ConsolePage) → IsShown p
    unfolding lit str_beq find_source
    console_page-IsShown e p =
        let r = new_console_handler-IsRead e in
        elim p as IsShown [
          | ConsolePage.dashboard ↦
              file-IsShown ConsolePage.dashboard _ r refl (λ content c. c) refl
          | ConsolePage.events ↦ file-IsShown ConsolePage.events _ r refl (λ content c. c) refl
          | ConsolePage.devices ↦ file-IsShown ConsolePage.devices _ r refl (λ content c. c) refl
          | ConsolePage.geo ↦ file-IsShown ConsolePage.geo _ r refl (λ content c. c) refl
          | ConsolePage.users_analytics ↦
              file-IsShown ConsolePage.users_analytics _ r refl (λ content c. c) refl
          | ConsolePage.projects ↦ file-IsShown ConsolePage.projects _ r refl (λ content c. c) refl
          | ConsolePage.console_users ↦
              file-IsShown ConsolePage.console_users _ r refl (λ content c. c) refl
          | ConsolePage.account ↦ file-IsShown ConsolePage.account _ r refl (λ content c. c) refl
          | ConsolePage.help ↦ help-IsShown r refl
          | ConsolePage.about ↦ file-IsShown ConsolePage.about _ r refl (λ content c. c) refl
        ]
