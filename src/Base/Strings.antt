-- ===== src/Base/Strings.antt =====
-- Go strings as their bytes, with the functions of package strings that the program calls.
pub mod Laws
use Prim.Native.Nat.{ℕ, zero, suc, ◌+◌}
use Prim.Native.Char.{code}
use Prim.Native.String.{String}
use mathlib.Core.Path.{◌≡◌, refl, ap}
use mathlib.Core.Logic.{◌↔◌, ◌≢◌}
use mathlib.Core.Bool.{Bool, true, false, ◌&&◌, ◌||◌}
use mathlib.Core.List.{List, [], ◌∷◌, ◌++◌, reverse}
use mathlib.Core.Option.{Option, none, some}
use native.Mathlib.Omega.{arith}
use oximetric.Base.Tests.{leb, nat_beq, if◌then◌else◌, Eq}
use oximetric.Base.Lists.{length, drop}

abbrev pub Str : Type 0
Str = List ℕ

-- The bytes of a literal, which is ASCII.
unfoldable pub lit : String → Str
lit String.[] = []
lit (String.◌∷◌ c s) = code c ∷ lit s

unfoldable pub str_beq : Str → Str → Bool
str_beq [] [] = true
str_beq (a ∷ s) (b ∷ t) = nat_beq a b && str_beq s t
str_beq _ _ = false

pub str_beq_iff : (s t : Str) → (str_beq s t ≡ true) ↔ (s ≡ t)
unfolding str_beq
str_beq_iff [] [] = ground arith
str_beq_iff [] (b ∷ t) = ground arith
str_beq_iff (a ∷ s) [] = ground arith
str_beq_iff (a ∷ s) (b ∷ t) = ground (arith, str_beq_iff s t)

instance abbrev pub str_eq : Eq Str
str_eq = record { equals = str_beq; equals_iff = str_beq_iff }

-- strings.HasPrefix
unfoldable pub has_prefix : Str → Str → Bool
has_prefix s [] = true
has_prefix [] (p ∷ ps) = false
has_prefix (c ∷ s) (p ∷ ps) = nat_beq c p && has_prefix s ps

-- strings.HasSuffix
unfoldable pub has_suffix : Str → Str → Bool
unfolding str_beq
has_suffix [] t = str_beq [] t
has_suffix (c ∷ s) t = str_beq (c ∷ s) t || has_suffix s t

-- strings.TrimPrefix
unfoldable pub trim_prefix : Str → Str → Str
unfolding has_prefix
trim_prefix s p = if has_prefix s p then drop (length p) s else s

-- strings.Index, with `none` for -1
unfoldable pub index? : Str → Str → Option ℕ
unfolding has_prefix
index? [] t = if has_prefix [] t then some 0 else none
index? (c ∷ s) t =
    if has_prefix (c ∷ s) t
    then some 0
    else elim (index? s t) [ none ↦ none | some i ↦ some (suc i) ]

-- strings.Contains
unfoldable pub has_substring : Str → Str → Bool
unfolding index?
has_substring s t = elim (index? s t) [ none ↦ false | some i ↦ true ]

-- strings.Join with a one-byte separator
unfoldable pub join : List Str → ℕ → Str
join [] sep = []
join (p ∷ []) sep = p
join (p ∷ q ∷ ps) sep = p ++ (sep ∷ join (q ∷ ps) sep)

-- The first part of a text split at a byte, and the other parts.
abbrev pub put_front : ℕ → Str × List Str → Str × List Str
put_front c (p, ps) = (c ∷ p, ps)

unfoldable pub split_parts : Str → ℕ → Str × List Str
split_parts [] sep = ([], [])
split_parts (c ∷ s) sep =
    let rest = split_parts s sep in
    if nat_beq c sep then ([], rest.0 ∷ rest.1) else put_front c rest

-- strings.Split with a one-byte separator
unfoldable pub split : Str → ℕ → List Str
unfolding split_parts
split s sep = (split_parts s sep).0 ∷ (split_parts s sep).1
