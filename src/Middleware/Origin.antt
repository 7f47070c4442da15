-- ===== src/Middleware/Origin.antt =====
-- Which browser origins a token admits: `matchOrigin` of internal/middleware/middleware.go and
-- `MatchOrigin` of internal/handler/handler.go.
pub mod Spec
use oximetric.Base.{
  Str, lit, Bool, true, false, ◌||◌, none, some, List, [], ◌∷◌, ◌+◌, ◌++◌, ◌==◌, str_eq, take, drop,
  if◌then◌else◌, is_empty, has_prefix, has_suffix, trim_prefix, index?,
}

-- The entry `scheme://*.suffix` against an origin. The slice of Go would panic on an entry that has
-- "://*." and not "://"; there is none, and the model answers false.
match_wildcard : Str → Str → Bool
match_wildcard a origin = elim (index? a (lit "://*.")) [
  | none ↦ false
  | some j ↦ elim (index? a (lit "://")) [
    | none ↦ false
    | some i ↦
        let prefix = take i a ++ lit "://" in
        let suffix = drop (j + 5) a in
        let host = trim_prefix origin prefix in
        if has_prefix origin prefix
        then host == suffix || has_suffix host (lit "." ++ suffix)
        else false
  ]
]

match_entry : Str → Str → Bool
unfolding match_wildcard
match_entry a origin =
    if a == lit "*" then true else if a == origin then true else match_wildcard a origin

-- The loop over the allowed entries.
match_loop : List Str → Str → Bool
unfolding match_entry
match_loop [] origin = false
match_loop (a ∷ allowed) origin = if match_entry a origin then true else match_loop allowed origin

-- `matchOrigin`
unfoldable pub match_origin : List Str → Str → Bool
unfolding match_loop
match_origin allowed origin = if is_empty origin then false else match_loop allowed origin

-- `MatchOrigin`, whose loop is the same text
unfoldable pub handler_match_origin : List Str → Str → Bool
unfolding match_loop
handler_match_origin allowed origin =
    if is_empty allowed then true else if is_empty origin then false else match_loop allowed origin
