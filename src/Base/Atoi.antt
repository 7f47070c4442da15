-- ===== src/Base/Atoi.antt =====
-- strconv.Atoi for a 64-bit int.
use Prim.Native.Nat.{ℕ, ◌+◌, ◌-◌, ◌*◌}
use mathlib.Core.Bool.{◌&&◌}
use mathlib.Core.List.{[], ◌∷◌}
use mathlib.Core.Option.{Option, none, some}
use oximetric.Base.Tests.{leb, nat_beq, if◌then◌else◌}
use oximetric.Base.Int.{ℤ, pos, negsuc}
use oximetric.Base.Strings.{Str}

-- The number that digits spell behind what was read already.
digits_value : ℕ → Str → Option ℕ
digits_value acc [] = some acc
digits_value acc (c ∷ s) =
    let rest = digits_value (acc * 10 + (c - b'0')) s in
    if leb b'0' c && leb c b'9' then rest else none

abbrev max_int : ℕ
max_int = 9223372036854775807

unsigned : Str → Option ℕ
unfolding digits_value
unsigned [] = none
unsigned (c ∷ s) = digits_value 0 (c ∷ s)

positive : Option ℕ → Option ℤ
positive none = none
positive (some n) = if leb n max_int then some (pos n) else none

negative : Option ℕ → Option ℤ
negative none = none
negative (some n) =
    if nat_beq n 0
    then some (pos 0)
    else if leb n (max_int + 1)
    then some (negsuc (n - 1))
    else none

unfoldable pub atoi : Str → Option ℤ
unfolding unsigned positive negative
atoi [] = none
atoi (c ∷ s) =
    if nat_beq c b'-'
    then negative (unsigned s)
    else if nat_beq c b'+'
    then positive (unsigned s)
    else positive (unsigned (c ∷ s))
