-- ===== src/Prelude/Text.antt =====
-- `str` and `String` as lists of Unicode scalars, with what the source uses of the standard
-- library on them: splitting, trimming, case, and reading and printing unsigned numbers.
pub mod Numbers
pub mod Split
pub mod Trim
pub mod Utf8
pub mod Hex
pub mod Affix
use rs_matter_server.Prelude.Tests.{if◌then◌else◌, leb, ltb}
use rs_matter_server.Prelude.Order.{◌==◌, nat_ord, text_ord}
use Prim.Native.Nat.{ℕ, zero, suc, ◌+◌, ◌-◌, ◌*◌, ◌/◌, ◌%◌, ◌<◌}
use Prim.Native.Char.{code}
use Prim.Native.String.{String}
use mathlib.Core.Bool.{Bool, true, false, ◌&&◌, ◌||◌}
use mathlib.Core.Option.{Option, none, some}
use mathlib.Core.List.{List, [], ◌∷◌, reverse, map}

abbrev pub Text : Type 0
Text = List ℕ

-- The scalars of a literal.
abbrev pub text : String → Text
text String.[] = []
text (String.◌∷◌ c s) = code c ∷ text s

-- `char::is_whitespace`.
unfoldable pub is_whitespace : ℕ → Bool
is_whitespace c =
    (leb 9 c && leb c 13)
    || c == 0x20
    || c == 0x85
    || c == 0xa0
    || c == 0x1680
    || (leb 0x2000 c && leb c 0x200a)
    || c == 0x2028
    || c == 0x2029
    || c == 0x202f
    || c == 0x205f
    || c == 0x3000

unfoldable pub trim_start : Text → Text
unfolding is_whitespace
trim_start [] = []
trim_start (c ∷ s) = if is_whitespace c then trim_start s else c ∷ s

unfoldable pub trim : Text → Text
unfolding trim_start
trim s = reverse (trim_start (reverse (trim_start s)))

unfoldable pub lower : ℕ → ℕ
lower c = if leb 65 c && leb c 90 then c + 32 else c

unfoldable pub to_ascii_lowercase : Text → Text
unfolding lower
to_ascii_lowercase s = map lower s

unfoldable pub eq_ignore_ascii_case : Text → Text → Bool
unfolding to_ascii_lowercase
eq_ignore_ascii_case a b = to_ascii_lowercase a == to_ascii_lowercase b

digit_value : ℕ → ℕ
digit_value c =
    if leb 48 c && leb c 57
    then c - 48
    else if leb 97 c && leb c 122
    then c - 87
    else if leb 65 c && leb c 90
    then c - 55
    else 36

-- `char::to_digit`, for a radix of at most 36.
unfoldable pub to_digit : ℕ → ℕ → Option ℕ
unfolding digit_value
to_digit radix c = if ltb (digit_value c) radix then some (digit_value c) else none

-- The loop of `from_str_radix`: it fails at a character that is no digit, and past `max`.
unfoldable pub parse_digits : ℕ → ℕ → ℕ → Text → Option ℕ
unfolding to_digit
parse_digits radix max acc [] = some acc
parse_digits radix max acc (c ∷ s) = elim (to_digit radix c) [
  | none ↦ none
  | some d ↦
      let next : ℕ = acc * radix + d in
      let rest = parse_digits radix max next s in if leb next max then rest else none
]

-- A leading `+` is accepted, but not alone; an unsigned type accepts no `-`.
unfoldable pub strip_plus : Text → Option Text
strip_plus [] = none
strip_plus (c ∷ []) = if c == b'+' then none else some (c ∷ [])
strip_plus (c ∷ d ∷ s) = if c == b'+' then some (d ∷ s) else some (c ∷ d ∷ s)

-- `uN::from_str_radix(s, radix).ok()`, where `max` is `uN::MAX`.
unfoldable pub parse_uint : ℕ → ℕ → Text → Option ℕ
unfolding strip_plus parse_digits
parse_uint radix max s = elim (strip_plus s) [ none ↦ none | some ds ↦ parse_digits radix max 0 ds ]

-- Decimal digits in front of `acc`; the fuel exceeds the number, so it exceeds its digits.
unfoldable pub show_digits : ℕ → ℕ → Text → Text
show_digits zero n acc = acc
show_digits (suc f) n acc =
    let rest = show_digits f (n / 10) ((48 + n % 10) ∷ acc) in
    if ltb n 10 then (48 + n) ∷ acc else rest

-- `format!("{}", n)`.
unfoldable pub show : ℕ → Text
unfolding show_digits
show n = show_digits (suc n) n []

abbrev push_head : ℕ → List Text → List Text
push_head c [] = (c ∷ []) ∷ []
push_head c (p ∷ ps) = (c ∷ p) ∷ ps

-- `str::split` on one character: always at least one part.
unfoldable pub split : ℕ → Text → List Text
split sep [] = [] ∷ []
split sep (c ∷ s) = let rest = split sep s in if c == sep then [] ∷ rest else push_head c rest
