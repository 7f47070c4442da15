-- ===== src/Handler/Origins/Distinct.antt =====
-- The duplicates that `normalizeOrigins` removes.
use oximetric.Base.{
  Str, false, List, [], ◌∷◌, ◌++◌, Option, none, some, ◌≡◌, refl, sym, ◌∙◌, ◌⊎◌, inl, inr,
  Bool-cases, arith, contains, str_eq, eq_iff,
}
use mathlib.Core.Path.{subst}
use oximetric.Handler.Origins.{
  OrError, value, error, origin_entry, add_origin, normalize_loop, normalize_origins,
}

-- No entry comes twice.
abbrev pub Distinct : List Str → Type 0
Distinct [] = Unit {0}
Distinct (o ∷ os) = (contains os o ≡ false) × Distinct os

contains-concat :
    (os : List Str) (o c : Str)
    → contains os o ≡ false
    → contains (o ∷ os) c ≡ false
    → contains (os ++ c ∷ []) o ≡ false
unfolding contains
contains-concat [] o c h k = ground (arith, eq_iff o c, eq_iff c o)
contains-concat (p ∷ os) o c h k =
    ground (arith, contains-concat os o c, eq_iff p o, eq_iff p c, eq_iff o c)

Distinct-concat :
    (os : List Str) (c : Str) → Distinct os → contains os c ≡ false → Distinct (os ++ c ∷ [])
unfolding contains
Distinct-concat [] c h k = (refl, tt)
Distinct-concat (o ∷ os) c (h, hs) k =
    (contains-concat os o c h k, Distinct-concat os c hs (ground arith))

-- What a list that is returned satisfies; an error satisfies it without one.
abbrev WhenValue : OrError (List Str) → Type 0
WhenValue (value out) = Distinct out
WhenValue (error m) = Unit {0}

entry-cases :
    (x : OrError (Option Str))
    → ((m : Str) × (x ≡ error m)) ⊎ ((x ≡ value none) ⊎ ((c : Str) × (x ≡ value (some c))))
entry-cases (error m) = inl (m, refl)
entry-cases (value none) = inr (inl refl)
entry-cases (value (some c)) = inr (inr (c, refl))

contains-append_one : (os : List Str) (c o : Str) → contains (os ++ c ∷ []) o ≡ contains (c ∷ os) o
unfolding contains
contains-append_one [] c o = refl
contains-append_one (p ∷ os) c o = ground (arith, contains-append_one os c o)

-- `seen` has the entries of `out`, and no entry of `out` comes twice.
abbrev IsTracked : List Str × List Str → Type 0
IsTracked (seen, out) = ((o : Str) → contains seen o ≡ contains out o) × Distinct out

add_origin-IsTracked :
    (c : Str) (state : List Str × List Str) → IsTracked state → IsTracked (add_origin c state)
unfolding contains
add_origin-IsTracked c (seen, out) (same, h) = elim (Bool-cases (contains seen c)) [
  | inl old ↦ rw (add_origin, old) (same, h)
  | inr new ↦
      rw (add_origin, new)
        (
          λ o. (ground (arith, same o) ∙ sym (contains-append_one out c o)),
          Distinct-concat out c h (sym (same c) ∙ new),
        )
]

module _ (url_parse : Str → Option (Str × Str)) (quote : Str → Str) where
  loop-Distinct :
      (raws : List Str) (state : List Str × List Str)
      → IsTracked state
      → WhenValue (normalize_loop url_parse quote raws state)
  unfolding normalize_loop
  loop-Distinct [] (seen, out) (same, h) = h
  loop-Distinct (raw ∷ raws) state h = elim (entry-cases (origin_entry url_parse quote raw)) [
    | inl (m, e) ↦ rw (WhenValue, e) tt
    | inr (inl e) ↦ rw (WhenValue, e) (loop-Distinct raws state h)
    | inr (inr (c, e)) ↦
        rw (WhenValue, e) (loop-Distinct raws (add_origin c state) (add_origin-IsTracked c state h))
  ]

  -- Whatever url.Parse makes of the entries: when `normalizeOrigins` returns a list, no entry of it
  -- comes twice.
  pub normalize_origins-Distinct :
      (raws result : List Str)
      → normalize_origins url_parse quote raws ≡ value result
      → Distinct result
  unfolding normalize_origins
  normalize_origins-Distinct raws result e =
      subst WhenValue e (loop-Distinct raws ([], []) ((λ o. refl), tt))
