-- ===== src/Base/Strings/Laws.antt =====
-- What the searches and cuts of package strings return.
use Prim.Native.Nat.{ℕ}
use mathlib.Core.Path.{◌≡◌, refl, ap, ◌∙◌}
use mathlib.Core.Logic.{◌≢◌, inl, inr}
use mathlib.Core.Bool.{true}
use mathlib.Core.List.{List, [], ◌∷◌, ◌++◌}
use mathlib.Core.Option.{some}
use native.Mathlib.Omega.{arith}
use oximetric.Base.Tests.{Bool-cases}
use oximetric.Base.Lists.{length, All, drop-append}
use oximetric.Base.Strings.{
  Str, str_beq, str_beq_iff, has_prefix, has_suffix, trim_prefix, index?, join, split_parts, split,
}

-- A text without a byte.
abbrev pub Lacks : ℕ → Str → Type 0
Lacks b = All (λ c. c ≢ b)

pub eq-append_of_has_prefix : (s p : Str) → has_prefix s p ≡ true → (r : Str) × (s ≡ p ++ r)
unfolding has_prefix
eq-append_of_has_prefix s [] h = (s, refl)
eq-append_of_has_prefix [] (b ∷ p) h = cc
eq-append_of_has_prefix (c ∷ s) (b ∷ p) h =
    let (r, e) = eq-append_of_has_prefix s p (ground arith) in (r, ground arith)

pub has_prefix-append : (p r : Str) → has_prefix (p ++ r) p ≡ true
unfolding has_prefix
has_prefix-append [] [] = refl
has_prefix-append [] (c ∷ r) = refl
has_prefix-append (c ∷ p) r = ground (arith, has_prefix-append p r)

pub trim_prefix-append : (p r : Str) → trim_prefix (p ++ r) p ≡ r
unfolding trim_prefix
trim_prefix-append p r = rw has_prefix-append (drop-append p r)

pub eq-append_of_has_suffix : (s t : Str) → has_suffix s t ≡ true → (w : Str) × (s ≡ w ++ t)
unfolding has_suffix
eq-append_of_has_suffix [] t h = ([], (str_beq_iff [] t).0 h)
eq-append_of_has_suffix (c ∷ s) t h = elim (Bool-cases (str_beq (c ∷ s) t)) [
  | inl e ↦ ([], (str_beq_iff (c ∷ s) t).0 e)
  | inr e ↦ let (w, p) = eq-append_of_has_suffix s t (rw e at h) in (c ∷ w, ap (λ u. c ∷ u) p)
]

pub has_suffix-append : (w t : Str) → has_suffix (w ++ t) t ≡ true
unfolding has_suffix
has_suffix-append [] [] = (str_beq_iff [] []).1 refl
has_suffix-append [] (c ∷ t) = rw ((str_beq_iff (c ∷ t) (c ∷ t)).1 refl)
has_suffix-append (c ∷ w) t = ground (arith, has_suffix-append w t)

-- The first occurrence of a text stands behind what lacks its first byte.
pub index?-append :
    (b : ℕ) (p t r : Str) → Lacks b p → index? (p ++ ((b ∷ t) ++ r)) (b ∷ t) ≡ some (length p)
unfolding index?
index?-append b [] t r h = rw (has_prefix-append (b ∷ t) r)
index?-append b (c ∷ p) t r (h, hs) = ground (arith, index?-append b p t r hs)

split_parts_alone : (sep : ℕ) (p : Str) → Lacks sep p → split_parts p sep ≡ (p, [])
unfolding split_parts
split_parts_alone sep [] h = refl
split_parts_alone sep (c ∷ p) (h, hs) = ground (arith, split_parts_alone sep p hs)

split_parts-append :
    (sep : ℕ) (p s : Str)
    → Lacks sep p
    → split_parts (p ++ (sep ∷ s)) sep ≡ (p, (split_parts s sep).0 ∷ (split_parts s sep).1)
unfolding split_parts
split_parts-append sep [] s h = ground arith
split_parts-append sep (c ∷ p) s (h, hs) = ground (arith, split_parts-append sep p s hs)

-- The parts of a split are what was joined, when no part holds the separator.
split_parts-join :
    (sep : ℕ) (p : Str) (ps : List Str)
    → All (Lacks sep) (p ∷ ps)
    → split_parts (join (p ∷ ps) sep) sep ≡ (p, ps)
unfolding join
split_parts-join sep p [] (h, _) = split_parts_alone sep p h
split_parts-join sep p (q ∷ ps) (h, hs) =
    split_parts-append sep p (join (q ∷ ps) sep) h
    ∙ ap (λ (r : Str × List Str). (p, r.0 ∷ r.1)) (split_parts-join sep q ps hs)

pub split-join :
    (sep : ℕ) (p : Str) (ps : List Str)
    → All (Lacks sep) (p ∷ ps)
    → split (join (p ∷ ps) sep) sep ≡ p ∷ ps
unfolding split
split-join sep p ps h = ap (λ (r : Str × List Str). r.0 ∷ r.1) (split_parts-join sep p ps h)
