-- ===== src/Geoip/Resolver.antt =====
-- internal/geoip/resolver.go. Parameters: net.ParseIP, and the reader of the database: for an
-- address it gives an error, or the map of texts that the record has under a section and a key,
-- which is empty where there is none.
use oximetric.Base.{
  Str, lit, List, [], Option, none, some, ◌≡◌, refl, lookup, str_eq, inl, inr, Option-cases,
}
use oximetric.Handler.Users.{or_else}

pub record Location : Type 0 where
  pub country : Str
  pub city : Str

abbrev pub Names : Type 0
Names = List (Str × Str)

-- The fields of the struct, by its tags.
pub record GeoRecord : Type 0 where
  pub country_names : Names
  pub city_names : Names

abbrev pub Reader : Type 0 → Type 0
Reader Ip = Ip → Option (Str → Str → Names)

abbrev pub no_location : Location
no_location = record { country = []; city = [] }

-- What the decoder fills in: the names of the city are looked for under the key "city".
abbrev pub decode_record : (Str → Str → Names) → GeoRecord
decode_record texts = record {
  country_names = texts (lit "country") (lit "names");
  city_names = texts (lit "city") (lit "city");
}

-- A key that a Go map lacks gives the empty text.
abbrev pub english : Names → Str
english names = or_else (lookup (lit "en") names) []

abbrev pub location_of : GeoRecord → Location
location_of r = record { country = english r.country_names; city = english r.city_names }

module _ {Ip : Type 0} (parse_ip : Str → Option Ip) (reader : Reader Ip) where
  unfoldable pub lookup_ip : Str → Location
  lookup_ip ip_str = elim (parse_ip ip_str) [
    | none ↦ no_location
    | some ip ↦ elim (reader ip) [
      | none ↦ no_location
      | some texts ↦ location_of (decode_record texts)
    ]
  ]

  -- The layout that MaxMind and DB-IP document: the section of the city has its names under the key
  -- "names", and no key "city".
  abbrev pub HasLayout : Type 0
  HasLayout =
      (ip : Ip) (texts : Str → Str → Names)
      → reader ip ≡ some texts
      → texts (lit "city") (lit "city") ≡ []

  -- The English name of the country in the record of an address.
  abbrev pub country_of : Option (Str → Str → Names) → Str
  country_of none = []
  country_of (some texts) = english (texts (lit "country") (lit "names"))

  abbrev pub record_of : Option Ip → Option (Str → Str → Names)
  record_of none = none
  record_of (some ip) = reader ip

  -- With a database of the documented layout no address is ever given a city, whatever names the
  -- database has for it; the country is the English name that it has for the address, if any.
  pub lookup_ip_city :
      (ip_str : Str)
      → HasLayout
      → lookup_ip ip_str ≡ record { country = country_of (record_of (parse_ip ip_str)); city = [] }
  unfolding lookup_ip lookup
  lookup_ip_city ip_str layout = elim (Option-cases (parse_ip ip_str)) [
    | inl e ↦ rw (lookup_ip, e) refl
    | inr (ip, e) ↦ elim (Option-cases (reader ip)) [
      | inl f ↦ rw (lookup_ip, e, f) refl
      | inr (texts, f) ↦ rw (lookup_ip, e, f, layout ip texts f) refl
    ]
  ]
