-- ===== src/Handler/Origins.antt =====
-- `normalizeOrigins` of internal/handler/handler.go. The parameters are net/url's Parse, which
-- gives the scheme and the host of a text or nothing, and the %q of package fmt.
pub mod Distinct
use oximetric.Base.{
  Str, lit, not, ◌&&◌, ◌||◌, List, [], ◌∷◌, ◌++◌, Option, none, some, ◌==◌, str_eq, is_empty,
  contains, trim_space, trim_prefix, index?, has_substring, drop, take, if◌then◌else◌, ◌+◌,
}

-- A value or the text of an error.
pub data OrError {ℓ} (A : Type ℓ) : Type ℓ where
  value : A → OrError A
  error : Str → OrError A

-- strings.Replace(s, "://*.", "://wildcard.", 1)
unfoldable pub replace_wild : Str → Str
replace_wild s = elim (index? s (lit "://*.")) [
  | none ↦ s
  | some i ↦ take i s ++ (lit "://wildcard." ++ drop (i + 5) s)
]

-- An entry goes to the end of `out` and into `seen`, unless it is there.
abbrev pub add_origin : Str → List Str × List Str → List Str × List Str
add_origin c (seen, out) = if contains seen c then (seen, out) else (c ∷ seen, out ++ c ∷ [])

module _ (url_parse : Str → Option (Str × Str)) (quote : Str → Str) where
  -- The entry in its canonical form, or the error: one round of the loop for a text that is neither
  -- blank nor "*".
  unfoldable pub canonical_origin : Str → Str → OrError Str
  unfolding replace_wild
  canonical_origin raw o =
      let wild = has_substring o (lit "://*.") in
      let bad_form =
        error (lit "invalid origin " ++ (quote raw ++ lit ": must be scheme://host[:port]")) in
      let bad_scheme =
        error (lit "invalid origin " ++ (quote raw ++ lit ": scheme must be http or https")) in
      elim (url_parse (if wild then replace_wild o else o)) [
        | none ↦ bad_form
        | some (scheme, host) ↦
            if is_empty scheme || is_empty host
            then bad_form
            else if not (scheme == lit "http") && not (scheme == lit "https")
            then bad_scheme
            else value (
                scheme
                ++ (lit "://"
                    ++ (if wild then lit "*." ++ trim_prefix host (lit "wildcard.") else host)))
      ]

  -- What the loop does with one raw entry: nothing, an entry, or an error.
  unfoldable pub origin_entry : Str → OrError (Option Str)
  unfolding canonical_origin
  origin_entry raw =
      let o = trim_space raw in
      if is_empty o
      then value none
      else if o == lit "*"
      then value (some o)
      else elim (canonical_origin raw o) [ error e ↦ error e | value c ↦ value (some c) ]

  -- The loop over the keys of `seen` and the entries of `out`.
  unfoldable pub normalize_loop : List Str → List Str × List Str → OrError (List Str)
  normalize_loop [] (seen, out) = value out
  normalize_loop (raw ∷ rest) state = elim (origin_entry raw) [
    | error e ↦ error e
    | value none ↦ normalize_loop rest state
    | value (some c) ↦ normalize_loop rest (add_origin c state)
  ]

  unfoldable pub normalize_origins : List Str → OrError (List Str)
  unfolding normalize_loop
  normalize_origins raws = normalize_loop raws ([], [])
