-- ===== src/Examples/Geoip.antt =====
-- A database of addresses that has one country, and an update on a day that April does not have.
use oximetric.Base.{
  ℕ, Str, lit, true, false, [], ◌∷◌, none, some, ◌==◌, str_eq, str_beq, ◌≡◌, ◌⊎◌, refl, ap, sym,
  if◌then◌else◌,
}
use oximetric.Geoip.Resolver.{
  Names, Reader, lookup_ip, country_of, record_of, HasLayout, lookup_ip_city,
}
use oximetric.Geoip.Updater.{Date, Disk, Download, World, days_in, update}
use oximetric.Geoip.Outcome.{IsInstalled, IsBroken, update_outcome, update-runs_over}

abbrev texts_of : Str → Str → Names
texts_of section key =
    if key == lit "names"
    then (if section == lit "country"
        then (lit "en", lit "Germany") ∷ []
        else (lit "en", lit "Berlin") ∷ [])
    else []

abbrev reader : Reader Str
reader ip = some texts_of

reader-HasLayout : HasLayout (λ s. some s) reader
unfolding lit str_beq
reader-HasLayout ip texts h =
    let same : texts_of ≡ texts = cc in
    sym (ap (λ (f : Str → Str → Names). f (lit "city") (lit "city")) same)

lookup_ip_city_example : lookup_ip (λ s. some s) reader (lit "10.0.0.1") ≡ record {
  country =
      country_of (λ s. some s) reader (record_of (λ s. some s) reader (some (lit "10.0.0.1")));
  city = [];
}
lookup_ip_city_example = lookup_ip_city (λ s. some s) reader (lit "10.0.0.1") reader-HasLayout

abbrev pub decimal : ℕ → Str
decimal n = n ∷ []

abbrev pub disk : Disk
disk = record {
  database =
      some (record { contents = lit "old"; modified = record { year = 2026; month = 4; day = 2 } });
  temp = none;
}

abbrev pub today : Date
today = record { year = 2026; month = 5; day = 31 }

-- The download is whole, and gzip stops in the middle.
abbrev pub world : World
world = record {
  get = λ url. some (record { status = 200; body = lit "z"; whole = true });
  made_dir = true;
  made_temp = true;
  opened_temp = true;
  created = true;
  gunzip = λ body. some (lit "ne", false);
  write = λ contents. none;
  removed = true;
}

update_outcome_example :
    IsInstalled decimal world today disk
    ⊎ ((update decimal world today disk ≡ (disk, false)) ⊎ IsBroken decimal world today disk)
update_outcome_example = update_outcome decimal world today disk refl refl

abbrev missing : Download
missing = record { status = 404; body = []; whole = true }

abbrev without_file : World
without_file = record world { get = λ url. some missing }

update-runs_over_example : update decimal without_file today disk ≡ (disk, false)
unfolding days_in
update-runs_over_example = update-runs_over decimal without_file today disk missing refl refl refl
