-- ===== src/Storage/Origins.antt =====
-- How a token's allowed origins are kept in one text column: `encodeOrigins` and `decodeOrigins`
-- of internal/storage/sqlite.go, which both stores use.
pub mod RoundTrip
use oximetric.Base.{Str, List, [], ◌∷◌, if◌then◌else◌, is_empty, join, split, trim_space}

-- The loop of both functions: every entry trimmed, and dropped if nothing is left.
pub cleaned : List Str → List Str
cleaned [] = []
cleaned (o ∷ os) =
    let t = trim_space o in let rest = cleaned os in if is_empty t then rest else t ∷ rest

unfoldable pub encode_origins : List Str → Str
unfolding cleaned
encode_origins origins = if is_empty origins then [] else join (cleaned origins) b'\n'

-- Go's nil and empty slices are both the empty list.
unfoldable pub decode_origins : Str → List Str
unfolding cleaned
decode_origins s = if is_empty s then [] else cleaned (split s b'\n')
