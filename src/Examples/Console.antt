-- ===== src/Examples/Console.antt =====
-- A console whose files all have the same text.
use oximetric.Base.{lit, true, [], ◌∷◌, some}
use oximetric.Http.{Body}
use oximetric.Handler.Console.{Web}

abbrev pub web : Web
web = record {
  has_static = true;
  read_file = λ name. some name;
  parse = λ text. some (λ on. text);
  html_escape = λ s. s;
  redirect = λ path status. record {
    status = status;
    headers = (lit "Location", path) ∷ [];
    body = Body.empty;
  };
  serve_file = λ headers path. record { status = 200; headers = headers; body = Body.text path };
}
