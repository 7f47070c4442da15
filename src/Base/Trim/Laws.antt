-- ===== src/Base/Trim/Laws.antt =====
-- Trimming a second time changes nothing.
use Prim.Native.Nat.{ℕ, zero, suc, ◌≤◌, ◌<◌}
use mathlib.Core.Path.{◌≡◌, refl, sym, ap, ◌∙◌}
use mathlib.Core.List.{[], ◌∷◌, ◌++◌, reverse, reverse-reverse, reverse-append, append_assoc}
use mathlib.Core.Option.{Option, none, some}
use mathlib.Core.Logic.{inl, inr}
use native.Mathlib.Omega.{arith}
use oximetric.Base.Tests.{Bool-cases, Option-cases}
use oximetric.Base.Lists.{length, length-append}
use oximetric.Base.Strings.{Str}
use oximetric.Base.Trim.{
  is_space1, is_space2, strip3, strip2, strip_front, strip3_back, strip2_back, strip_back,
  strip_all, trim_left, trim_right, trim_space,
}

-- A strip takes off bytes at the front, at least one.
abbrev Shrinks : (Str → Option Str) → Type 0
Shrinks strip = (s r : Str) → strip s ≡ some r → (w : Str) × (s ≡ w ++ r) × (0 < length w)

strip_front-Shrinks : Shrinks strip_front
unfolding strip_front strip2 strip3
strip_front-Shrinks [] r h = cc
strip_front-Shrinks (a ∷ []) r h = (a ∷ [], ground arith, omega arith)
strip_front-Shrinks (a ∷ b ∷ []) r h = elim (Bool-cases (is_space1 a)) [
  | inl one ↦ (a ∷ [], ground arith, omega arith)
  | inr more ↦ (a ∷ b ∷ [], ground arith, omega arith)
]
strip_front-Shrinks (a ∷ b ∷ c ∷ s) r h = elim (Bool-cases (is_space1 a)) [
  | inl one ↦ (a ∷ [], ground arith, omega arith)
  | inr more ↦ elim (Bool-cases (is_space2 a b)) [
    | inl two ↦ (a ∷ b ∷ [], ground arith, omega arith)
    | inr three ↦ (a ∷ b ∷ c ∷ [], ground arith, omega arith)
  ]
]

strip_back-Shrinks : Shrinks strip_back
unfolding strip_back strip2_back strip3_back
strip_back-Shrinks [] r h = cc
strip_back-Shrinks (a ∷ []) r h = (a ∷ [], ground arith, omega arith)
strip_back-Shrinks (b ∷ a ∷ []) r h = elim (Bool-cases (is_space1 b)) [
  | inl one ↦ (b ∷ [], ground arith, omega arith)
  | inr more ↦ (b ∷ a ∷ [], ground arith, omega arith)
]
strip_back-Shrinks (c ∷ b ∷ a ∷ s) r h = elim (Bool-cases (is_space1 c)) [
  | inl one ↦ (c ∷ [], ground arith, omega arith)
  | inr more ↦ elim (Bool-cases (is_space2 b c)) [
    | inl two ↦ (c ∷ b ∷ [], ground arith, omega arith)
    | inr three ↦ (c ∷ b ∷ a ∷ [], ground arith, omega arith)
  ]
]

-- White space at the front stays there when more text follows.
strip_front-append : (s t r : Str) → strip_front s ≡ some r → strip_front (s ++ t) ≡ some (r ++ t)
unfolding strip_front strip2 strip3
strip_front-append [] t r h = cc
strip_front-append (a ∷ []) t r h = ground arith
strip_front-append (a ∷ b ∷ []) t r h = ground arith
strip_front-append (a ∷ b ∷ c ∷ s) t r h = ground arith

module _ (strip : Str → Option Str) (shrinks : Shrinks strip) where
  -- With fuel for each byte nothing is left to strip.
  strip_all_done : (n : ℕ) (s : Str) → length s ≤ n → strip (strip_all strip n s) ≡ none
  unfolding strip_all
  strip_all_done zero [] h = elim (Option-cases (strip [])) [
    | inl e ↦ e
    | inr (r, e) ↦
        let (w, split, pos) = shrinks [] r e in
        absurd (omega (arith, ap length split, length-append w r))
  ]
  strip_all_done zero (c ∷ s) h = absurd (omega arith)
  strip_all_done (suc n) s h = elim (Option-cases (strip s)) [
    | inl e ↦ rw (e, strip_all) e
    | inr (r, e) ↦
        let (w, split, pos) = shrinks s r e in
        rw (e, strip_all) (strip_all_done n r (omega (arith, ap length split, length-append w r)))
  ]

  -- What was stripped stood in front of what is left.
  strip_all_suffix : (n : ℕ) (s : Str) → (w : Str) × (s ≡ w ++ strip_all strip n s)
  unfolding strip_all
  strip_all_suffix zero s = ([], refl)
  strip_all_suffix (suc n) s = elim (Option-cases (strip s)) [
    | inl e ↦ rw (e, strip_all) ([], refl)
    | inr (r, e) ↦
        let (w, split, pos) = shrinks s r e in
        let (v, rest) = strip_all_suffix n r in
        rw (e, strip_all) (w ++ v, split ∙ ap (λ t. w ++ t) rest ∙ sym (append_assoc w v _))
  ]

strip_all_fixed :
    (strip : Str → Option Str) (n : ℕ) (s : Str) → strip s ≡ none → strip_all strip n s ≡ s
unfolding strip_all
strip_all_fixed strip zero s h = refl
strip_all_fixed strip (suc n) s h = rw (h, strip_all)

strip_front-trim_left : (s : Str) → strip_front (trim_left s) ≡ none
unfolding trim_left
strip_front-trim_left s = strip_all_done strip_front strip_front-Shrinks (length s) s (omega arith)

trim_left_fixed : (s : Str) → strip_front s ≡ none → trim_left s ≡ s
unfolding trim_left
trim_left_fixed s h = strip_all_fixed strip_front (length s) s h

length-reverse : (s : Str) → length (reverse s) ≡ length s
length-reverse [] = refl
length-reverse (c ∷ s) = omega (
  arith,
  ap length (reverse-append (c ∷ []) s),
  length-append (reverse s) (c ∷ []),
  length-reverse s,
)

strip_back-trim_right : (s : Str) → strip_back (reverse (trim_right s)) ≡ none
unfolding trim_right
strip_back-trim_right s = rw reverse-reverse (
    strip_all_done strip_back strip_back-Shrinks (length s) (reverse s)
      (omega (arith, length-reverse s)))

trim_right_fixed : (s : Str) → strip_back (reverse s) ≡ none → trim_right s ≡ s
unfolding trim_right
trim_right_fixed s h =
    ap reverse (strip_all_fixed strip_back (length s) (reverse s) h) ∙ reverse-reverse s

-- Trimming at the end leaves a prefix.
trim_right-prefix : (s : Str) → (w : Str) × (s ≡ trim_right s ++ w)
unfolding trim_right
trim_right-prefix s =
    let (w, e) = strip_all_suffix strip_back strip_back-Shrinks (length s) (reverse s) in
    (reverse w, sym (reverse-reverse s) ∙ ap reverse e ∙ reverse-append w _)

strip_front-prefix : (s t : Str) → strip_front (s ++ t) ≡ none → strip_front s ≡ none
strip_front-prefix s t h = elim (Option-cases (strip_front s)) [
  | inl e ↦ e
  | inr (r, e) ↦ cc (strip_front-append s t r e)
]

strip_front-trim_right : (s : Str) → strip_front s ≡ none → strip_front (trim_right s) ≡ none
strip_front-trim_right s h =
    let (w, e) = trim_right-prefix s in
    strip_front-prefix (trim_right s) w (ap strip_front (sym e) ∙ h)

pub trim_space_idem : (s : Str) → trim_space (trim_space s) ≡ trim_space s
unfolding trim_space
trim_space_idem s =
    let t = trim_left s in
    let front = strip_front-trim_right t (strip_front-trim_left s) in
    ap trim_right (trim_left_fixed (trim_right t) front)
    ∙ trim_right_fixed (trim_right t) (strip_back-trim_right t)
