-- ===== src/Base/Trim.antt =====
-- strings.TrimSpace over the bytes of a text: the white space of ASCII and of Unicode in UTF-8.
pub mod Laws
use Prim.Native.Nat.{ℕ, zero, suc}
use mathlib.Core.Bool.{Bool, ◌&&◌, ◌||◌}
use mathlib.Core.List.{List, [], ◌∷◌, reverse}
use mathlib.Core.Option.{Option, none, some}
use oximetric.Base.Tests.{leb, nat_beq, if◌then◌else◌}
use oximetric.Base.Lists.{length}
use oximetric.Base.Strings.{Str}

-- Tab, line feed, vertical tab, form feed, carriage return and space.
is_space1 : ℕ → Bool
is_space1 a = nat_beq a 32 || (leb 9 a && leb a 13)

-- U+0085 and U+00A0.
is_space2 : ℕ → ℕ → Bool
is_space2 a b = nat_beq a 0xc2 && (nat_beq b 0x85 || nat_beq b 0xa0)

-- U+1680, U+2000 to U+200A, U+2028, U+2029, U+202F, U+205F and U+3000.
is_space3 : ℕ → ℕ → ℕ → Bool
is_space3 a b c =
    (nat_beq a 0xe1 && nat_beq b 0x9a && nat_beq c 0x80)
    || (nat_beq a 0xe2 && nat_beq b 0x80 && leb 0x80 c && leb c 0x8a)
    || (nat_beq a 0xe2 && nat_beq b 0x80 && (nat_beq c 0xa8 || nat_beq c 0xa9 || nat_beq c 0xaf))
    || (nat_beq a 0xe2 && nat_beq b 0x81 && nat_beq c 0x9f)
    || (nat_beq a 0xe3 && nat_beq b 0x80 && nat_beq c 0x80)

strip3 : ℕ → ℕ → Str → Option Str
strip3 a b [] = none
strip3 a b (c ∷ s) = if is_space3 a b c then some s else none

strip2 : ℕ → Str → Option Str
strip2 a [] = none
strip2 a (b ∷ s) = if is_space2 a b then some s else strip3 a b s

-- What follows one white-space character at the front, if one stands there.
strip_front : Str → Option Str
strip_front [] = none
strip_front (a ∷ s) = if is_space1 a then some s else strip2 a s

strip3_back : ℕ → ℕ → Str → Option Str
strip3_back c b [] = none
strip3_back c b (a ∷ s) = if is_space3 a b c then some s else none

strip2_back : ℕ → Str → Option Str
strip2_back b [] = none
strip2_back b (a ∷ s) = if is_space2 a b then some s else strip3_back b a s

-- The same at the end, over the bytes in reverse order.
strip_back : Str → Option Str
strip_back [] = none
strip_back (b ∷ s) = if is_space1 b then some s else strip2_back b s

strip_all : (Str → Option Str) → ℕ → Str → Str
strip_all strip zero s = s
strip_all strip (suc n) s = elim (strip s) [ none ↦ s | some r ↦ strip_all strip n r ]

trim_left : Str → Str
unfolding strip_all strip_front strip2 strip3 is_space1 is_space2 is_space3
trim_left s = strip_all strip_front (length s) s

trim_right : Str → Str
unfolding strip_all strip_back strip2_back strip3_back is_space1 is_space2 is_space3
trim_right s = reverse (strip_all strip_back (length s) (reverse s))

unfoldable pub trim_space : Str → Str
unfolding trim_left trim_right
trim_space s = trim_right (trim_left s)
