-- ===== src/Handler/Properties.antt =====
-- `buildProperties` of internal/handler/tracking.go. Parameters: what net/geoip looks up, the
-- conversion of a float64 to an int64, and the parsing of RFC 3339 times.
use oximetric.Base.{
  ℕ, ℤ, Str, lit, List, [], ◌∷◌, Option, none, some, ◌==◌, str_eq, ltb, if◌then◌else◌, length, take,
}
use oximetric.Model.{Moment, Float64, EventProperty, JsonValue, TrackPropertyValue}
use oximetric.Geoip.Resolver.{Location}

abbrev pub max_key_len : ℕ
max_key_len = 128

abbrev pub max_string_value_len : ℕ
max_string_value_len = 4096

pub record Runtime : Type 0 where
  -- the resolver's Lookup, if a resolver was opened
  pub geo : Option (Str → Location)
  -- int64(f)
  pub to_int64 : Float64 → ℤ
  -- time.Parse(time.RFC3339, s)
  pub parse_rfc3339 : Str → Option Moment

-- A property with its key and type, and no value yet.
abbrev pub bare_property : Str → Str → Str → EventProperty
bare_property event_id key type = record {
  id = ℤ.pos 0;
  event_id = event_id;
  key = key;
  value_type = type;
  value_string = none;
  value_int = none;
  value_float = none;
  value_bool = none;
  value_datetime = none;
}

module _ (rt : Runtime) where
  open rt use {geo, to_int64, parse_rfc3339}

  set_string : JsonValue → EventProperty → EventProperty
  set_string (JsonValue.string s) ep = record ep {
    value_string =
        some (if ltb max_string_value_len (length s) then take max_string_value_len s else s);
  }
  set_string _ ep = ep

  set_int : JsonValue → EventProperty → EventProperty
  set_int (JsonValue.number f) ep = record ep { value_int = some (to_int64 f) }
  set_int _ ep = ep

  set_float : JsonValue → EventProperty → EventProperty
  set_float (JsonValue.number f) ep = record ep { value_float = some f }
  set_float _ ep = ep

  set_bool : JsonValue → EventProperty → EventProperty
  set_bool (JsonValue.bool b) ep = record ep { value_bool = some b }
  set_bool _ ep = ep

  set_datetime : JsonValue → EventProperty → EventProperty
  set_datetime (JsonValue.string s) ep = record ep { value_datetime = parse_rfc3339 s }
  set_datetime _ ep = ep

  -- The switch on the type.
  unfoldable pub build_property : Str → Str → TrackPropertyValue → EventProperty
  unfolding set_string set_int set_float set_bool set_datetime
  build_property event_id key pv =
      let ep = bare_property event_id key pv.type in
      if pv.type == lit "string"
      then set_string pv.value ep
      else if pv.type == lit "int"
      then set_int pv.value ep
      else if pv.type == lit "float"
      then set_float pv.value ep
      else if pv.type == lit "bool"
      then set_bool pv.value ep
      else if pv.type == lit "datetime"
      then set_datetime pv.value ep
      else ep

  unfoldable pub build_properties : Str → List (Str × TrackPropertyValue) → List EventProperty
  unfolding build_property
  build_properties event_id [] = []
  build_properties event_id ((key, pv) ∷ rest) =
      let built = build_properties event_id rest in
      if ltb max_key_len (length key) then built else build_property event_id key pv ∷ built
