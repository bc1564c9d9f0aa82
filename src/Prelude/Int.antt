-- ===== src/Prelude/Int.antt =====
-- Signed integers: `negsuc n` is -(n + 1).
use Prim.Native.Nat.{ℕ, ◌-◌, ◌%◌, ◌^◌}
use mathlib.Core.Bool.{Bool, true, false}
use mathlib.Core.Option.{Option, none, some}
use rs_matter_server.Prelude.Tests.{leb, ltb, if◌then◌else◌}

pub data ℤ : Type 0 where
  pos : ℕ → ℤ
  negsuc : ℕ → ℤ

abbrev pub leb_ℤ : ℤ → ℤ → Bool
leb_ℤ (pos a) (pos b) = leb a b
leb_ℤ (pos a) (negsuc b) = false
leb_ℤ (negsuc a) (pos b) = true
leb_ℤ (negsuc a) (negsuc b) = leb b a

-- The integer that the low `w` bits stand for in two's complement, given below `2 ^ w`.
abbrev pub signed : ℕ → ℕ → ℤ
signed w n = if ltb n (2 ^ (w - 1)) then pos n else negsuc (2 ^ w - n - 1)

-- `as iN`: the low `w` bits.
unfoldable pub wrap : ℕ → ℤ → ℤ
wrap w (pos n) = signed w (n % 2 ^ w)
wrap w (negsuc n) = signed w (2 ^ w - n % 2 ^ w - 1)

-- `uN::try_from`, where `max` is `uN::MAX`.
unfoldable pub to_unsigned : ℕ → ℤ → Option ℕ
to_unsigned max (pos n) = if leb n max then some n else none
to_unsigned max (negsuc n) = none
