-- ===== src/Prelude/Text/Numbers.antt =====
-- Unsigned numbers: what is printed is read back, and what is read is in range.
use rs_matter_server.Prelude.Text.{
  Text, to_digit, parse_digits, strip_plus, parse_uint, show_digits, show,
}
use Prim.Native.Nat.{ℕ, zero, suc, ◌+◌, ◌*◌, ◌/◌, ◌%◌, ◌≤◌, ◌<◌}
use mathlib.Core.Logic.{inl, inr}
use rs_matter_server.Prelude.Tests.{Option-cases, ltb}
use rs_matter_server.Prelude.Tests.{Bool-cases}
use rs_matter_server.Prelude.Lists.{All}
use mathlib.Core.Path.{◌≡◌, ◌∙◌}
use rs_matter_server.Prelude.Text.Split.{Lacks}
use mathlib.Core.Option.{some}
use mathlib.Core.List.{[], ◌∷◌}
use native.Mathlib.Omega.{arith}

pub parse_digits-le-max :
    (radix max acc n : ℕ) (s : Text) → parse_digits radix max acc s ≡ some n → acc ≤ max → n ≤ max
unfolding parse_digits
parse_digits-le-max radix max acc n [] h a = ground arith
parse_digits-le-max radix max acc n (c ∷ s) h a = elim (Option-cases (to_digit radix c)) [
  | inl missing ↦ ground arith
  | inr (d, found) ↦ ground (arith, parse_digits-le-max radix max (acc * radix + d) n s)
]

pub parse_uint-le-max : (radix max n : ℕ) (s : Text) → parse_uint radix max s ≡ some n → n ≤ max
unfolding parse_uint
parse_uint-le-max radix max n s h = elim (Option-cases (strip_plus s)) [
  | inl missing ↦ ground arith
  | inr (ds, found) ↦
      parse_digits-le-max radix max 0 n ds (rw (found, parse_uint) at h) (omega arith)
]

to_digit_decimal : (d : ℕ) → d < 10 → to_digit 10 (48 + d) ≡ some d
unfolding to_digit
to_digit_decimal d h = ground arith

next_digit :
    (max n : ℕ) (rest : Text)
    → n ≤ max
    → parse_digits 10 max (n / 10) ((48 + n % 10) ∷ rest) ≡ parse_digits 10 max n rest
unfolding parse_digits
next_digit max n rest m =
    let e : n / 10 * 10 + n % 10 ≡ n = omega arith in
    ground (arith, to_digit_decimal (n % 10) (omega arith))

one_digit :
    (max n : ℕ) (rest : Text)
    → n ≤ max
    → n < 10
    → parse_digits 10 max 0 ((48 + n) ∷ rest) ≡ parse_digits 10 max n rest
unfolding parse_digits
one_digit max n rest m h = ground (arith, to_digit_decimal n h)

pub parse_digits-show_digits :
    (max f n : ℕ) (rest : Text)
    → n ≤ max
    → n < f
    → parse_digits 10 max 0 (show_digits f n rest) ≡ parse_digits 10 max n rest
unfolding show_digits parse_digits
parse_digits-show_digits max zero n rest m h = absurd (omega arith)
parse_digits-show_digits max (suc f) n rest m h = elim (Bool-cases (ltb n 10)) [
  | inl small ↦ rw (small, show_digits) (one_digit max n rest m (ground arith))
  | inr large ↦
      rw (large, show_digits)
        (parse_digits-show_digits max f (n / 10) ((48 + n % 10) ∷ rest) (omega arith) (ground arith)
          ∙ next_digit max n rest m)
]

-- What is printed has a first character that is a digit, so `strip_plus` leaves it alone.
IsNumeral : Text → Type 0
IsNumeral [] = ⊥
IsNumeral (c ∷ s) = 48 ≤ c

show_digits-IsNumeral : (f n : ℕ) (acc : Text) → n < f → IsNumeral (show_digits f n acc)
unfolding show_digits IsNumeral
show_digits-IsNumeral zero n acc h = absurd (omega arith)
show_digits-IsNumeral (suc f) n acc h = elim (Bool-cases (ltb n 10)) [
  | inl small ↦ rw small (omega arith)
  | inr large ↦ rw large (show_digits-IsNumeral f (n / 10) ((48 + n % 10) ∷ acc) (ground arith))
]

strip_plus_of_IsNumeral : (s : Text) → IsNumeral s → strip_plus s ≡ some s
unfolding strip_plus IsNumeral
strip_plus_of_IsNumeral [] h = absurd h
strip_plus_of_IsNumeral (c ∷ []) h = ground arith
strip_plus_of_IsNumeral (c ∷ d ∷ s) h = ground arith

-- A number in range is read back from what is printed.
pub parse_uint-show : (max n : ℕ) → n ≤ max → parse_uint 10 max (show n) ≡ some n
unfolding parse_uint show
parse_uint-show max n h =
    let e : strip_plus (show_digits (suc n) n []) ≡ some (show_digits (suc n) n []) =
      strip_plus_of_IsNumeral _ (show_digits-IsNumeral (suc n) n [] (omega arith)) in
    rw (e, parse_uint) (parse_digits-show_digits max (suc n) n [] h (omega arith))

-- What is printed lacks every character below the digits, the separators among them.
show_digits-Lacks :
    (sep f n : ℕ) (acc : Text) → sep < 48 → Lacks sep acc → Lacks sep (show_digits f n acc)
unfolding show_digits
show_digits-Lacks sep zero n acc l h = h
show_digits-Lacks sep (suc f) n acc l h =
    ground (arith, show_digits-Lacks sep f (n / 10) ((48 + n % 10) ∷ acc))

pub show-Lacks : (sep n : ℕ) → sep < 48 → Lacks sep (show n)
unfolding show
show-Lacks sep n h = show_digits-Lacks sep (suc n) n [] h tt

-- What is printed is digits, all below any bound that is above the digits.
show_digits-below :
    (m f n : ℕ) (acc : Text)
    → 58 ≤ m
    → All (λ c. c < m) acc
    → All (λ c. c < m) (show_digits f n acc)
unfolding show_digits
show_digits-below m zero n acc b h = h
show_digits-below m (suc f) n acc b h =
    ground (arith, show_digits-below m f (n / 10) ((48 + n % 10) ∷ acc))

pub show-below : (m n : ℕ) → 58 ≤ m → All (λ c. c < m) (show n)
unfolding show
show-below m n b = show_digits-below m (suc n) n [] b tt

pub show-ascii : (n : ℕ) → All (λ c. c < 128) (show n)
show-ascii n = show-below 128 n (omega arith)

pub show-injective : (a b : ℕ) → show a ≡ show b → a ≡ b
show-injective a b h =
    let e : parse_uint 10 (a + b) (show a) ≡ some b =
      rw h (parse_uint-show (a + b) b (omega arith)) in
    ground (arith, e, parse_uint-show (a + b) a (omega arith))
