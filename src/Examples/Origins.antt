-- ===== src/Examples/Origins.antt =====
-- Allowed origins: the column of a token, and the test of a browser's origin.
use oximetric.Base.{
  ℕ, Str, lit, List, [], ◌∷◌, ◌≡◌, ◌≢◌, ◌↔◌, refl, true, false, All, arith, nat_eq, eq_iff,
  contains, trim_space, index?,
}
use oximetric.Base.Strings.Laws.{Lacks}
use oximetric.Storage.Origins.{cleaned, encode_origins, decode_origins}
use oximetric.Storage.Origins.RoundTrip.{OneLine, decode_origins-encode_origins}
use oximetric.Middleware.Origin.{match_origin}
use oximetric.Middleware.Origin.Spec.{IsEntry, SomePermits, match_origin_iff}

Lacks-of_contains : (b : ℕ) (s : Str) → contains s b ≡ false → Lacks b s
unfolding contains
Lacks-of_contains b [] h = tt
Lacks-of_contains b (c ∷ s) h =
    ((λ e. ground (arith, eq_iff c b)), Lacks-of_contains b s (ground (arith, eq_iff c b)))

abbrev typed : List Str
typed = lit " https://a.io " ∷ lit "" ∷ lit "http://*.b" ∷ []

typed-OneLine : All OneLine typed
unfolding lit trim_space contains
typed-OneLine = (
  Lacks-of_contains b'\n' (trim_space (lit " https://a.io ")) refl,
  (
    Lacks-of_contains b'\n' (trim_space (lit "")) refl,
    (Lacks-of_contains b'\n' (trim_space (lit "http://*.b")) refl, tt),
  ),
)

decode_origins-encode_origins_example : decode_origins (encode_origins typed) ≡ cleaned typed
decode_origins-encode_origins_example = decode_origins-encode_origins typed typed-OneLine

abbrev allowed : List Str
allowed = lit "https://a.io" ∷ lit "http://*.b" ∷ []

allowed-IsEntry : All IsEntry allowed
unfolding lit index? contains
allowed-IsEntry = (
  IsEntry.plain refl,
  (IsEntry.below (lit "http") (lit "b") (Lacks-of_contains b':' (lit "http") refl) refl, tt),
)

match_origin_iff_example :
    (match_origin allowed (lit "http://x.b") ≡ true)
    ↔ ((lit "http://x.b" ≢ []) × SomePermits allowed (lit "http://x.b"))
match_origin_iff_example = match_origin_iff allowed (lit "http://x.b") allowed-IsEntry
