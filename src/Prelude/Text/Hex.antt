-- ===== src/Prelude/Text/Hex.antt =====
-- Hexadecimal text: bytes from pairs of digits, and back in upper case.
use rs_matter_server.Prelude.Tests.{if◌then◌else◌, leb, ltb, is_some}
use rs_matter_server.Prelude.Lists.{All, all, length}
use rs_matter_server.Prelude.Order.{nat_ord}
use rs_matter_server.Prelude.Text.{Text, parse_uint}
use Prim.Native.Nat.{ℕ, zero, suc, ◌+◌, ◌*◌, ◌/◌, ◌%◌, ◌<◌}
use mathlib.Core.Path.{◌≡◌, refl}
use mathlib.Core.Bool.{and-eq-true_iff, Bool, true, ◌&&◌, ◌||◌}
use mathlib.Core.Option.{Option, none, some}
use mathlib.Core.List.{List, [], ◌∷◌}
use native.Mathlib.Omega.{arith}

-- `char::is_ascii_hexdigit`.
unfoldable pub is_hexdigit : ℕ → Bool
is_hexdigit c = (leb 48 c && leb c 57) || ((leb 65 c && leb c 70) || (leb 97 c && leb c 102))

-- `u8::from_str_radix(pair, 16)`.
unfoldable pub byte_of_pair : ℕ → ℕ → Option ℕ
unfolding parse_uint
byte_of_pair a b = parse_uint 16 255 (a ∷ b ∷ [])

abbrev pub cons_byte : Option ℕ → Option (List ℕ) → Option (List ℕ)
cons_byte (some n) (some ns) = some (n ∷ ns)
cons_byte _ _ = none

-- Each two characters are a byte; the first failure is the answer.
unfoldable pub hex_pairs : Text → Option (List ℕ)
hex_pairs [] = some []
hex_pairs (a ∷ []) = none
hex_pairs (a ∷ b ∷ s) = cons_byte (byte_of_pair a b) (hex_pairs s)

upper_digit : ℕ → ℕ
upper_digit d = if ltb d 10 then 48 + d else 55 + d

-- `{:02X}` of each byte.
unfoldable pub to_hex_upper : List ℕ → Text
unfolding upper_digit
to_hex_upper [] = []
to_hex_upper (b ∷ bs) = upper_digit (b / 16) ∷ upper_digit (b % 16) ∷ to_hex_upper bs

hex_digits : ℕ → ℕ → Text → Text
unfolding upper_digit
hex_digits zero n acc = acc
hex_digits (suc width) n acc = hex_digits width (n / 16) (upper_digit (n % 16) ∷ acc)

-- `{:016X}`.
unfoldable pub hex16 : ℕ → Text
unfolding hex_digits
hex16 n = hex_digits 16 n []

pair_of_byte :
    (b : ℕ) → b < 256 → byte_of_pair (upper_digit (b / 16)) (upper_digit (b % 16)) ≡ some b
unfolding byte_of_pair upper_digit
pair_of_byte b h = ground arith

hex_pairs-cons :
    (b : ℕ) (s : Text)
    → b < 256
    → hex_pairs (upper_digit (b / 16) ∷ upper_digit (b % 16) ∷ s) ≡ cons_byte (some b) (hex_pairs s)
unfolding hex_pairs
hex_pairs-cons b s h = rw (pair_of_byte b h)

pub hex_pairs-to_hex_upper :
    (bs : List ℕ) → All (λ b. b < 256) bs → hex_pairs (to_hex_upper bs) ≡ some bs
hex_pairs-to_hex_upper [] h = unfold hex_pairs to_hex_upper in refl
hex_pairs-to_hex_upper (b ∷ bs) (p, h) =
    rw to_hex_upper-cons
      (rw (hex_pairs-cons b (to_hex_upper bs) p) (rw (hex_pairs-to_hex_upper bs h)))
  where
    to_hex_upper-cons :
        to_hex_upper (b ∷ bs) ≡ upper_digit (b / 16) ∷ upper_digit (b % 16) ∷ to_hex_upper bs
    to_hex_upper-cons = unfold to_hex_upper in refl

hexdigit_upper : (d : ℕ) → d < 16 → is_hexdigit (upper_digit d) ≡ true
unfolding is_hexdigit upper_digit
hexdigit_upper d h = ground arith

pub all-is_hexdigit-to_hex_upper :
    (bs : List ℕ) → All (λ b. b < 256) bs → all is_hexdigit (to_hex_upper bs) ≡ true
unfolding to_hex_upper
all-is_hexdigit-to_hex_upper [] h = refl
all-is_hexdigit-to_hex_upper (b ∷ bs) (p, h) =
    rw (hexdigit_upper (b / 16) (omega arith))
      (rw (hexdigit_upper (b % 16) (omega arith)) (all-is_hexdigit-to_hex_upper bs h))

pub length-to_hex_upper : (bs : List ℕ) → length (to_hex_upper bs) ≡ 2 * length bs
unfolding to_hex_upper
length-to_hex_upper [] = refl
length-to_hex_upper (b ∷ bs) = omega (arith, length-to_hex_upper bs)

-- Two hexadecimal digits are always a byte.
pair_is_some :
    (a b : ℕ) → is_hexdigit a ≡ true → is_hexdigit b ≡ true → is_some (byte_of_pair a b) ≡ true
unfolding byte_of_pair is_hexdigit
pair_is_some a b p q = ground arith

cons_byte-is_some :
    (o : Option ℕ) (os : Option (List ℕ))
    → is_some o ≡ true
    → is_some os ≡ true
    → is_some (cons_byte o os) ≡ true
cons_byte-is_some o os p q = ground arith

pub hex_pairs-is_some :
    (s : Text) → all is_hexdigit s ≡ true → length s % 2 ≡ 0 → is_some (hex_pairs s) ≡ true
unfolding hex_pairs
hex_pairs-is_some [] h e = refl
hex_pairs-is_some (a ∷ []) h e = absurd (omega arith)
hex_pairs-is_some (a ∷ b ∷ s) h e =
    let (p, more) = (and-eq-true_iff _ _).0 h in
    let (q, rest) = (and-eq-true_iff _ _).0 more in
    cons_byte-is_some (byte_of_pair a b) (hex_pairs s) (pair_is_some a b p q)
      (hex_pairs-is_some s rest (omega arith))
