-- ===== src/Prelude/Text/Utf8.antt =====
-- `std::str::from_utf8`, as a machine that reads one byte at a time.
use rs_matter_server.Prelude.Tests.{if◌then◌else◌, leb, ltb}
use rs_matter_server.Prelude.Lists.{All}
use rs_matter_server.Prelude.Text.{Text}
use Prim.Native.Nat.{ℕ, zero, suc, ◌+◌, ◌-◌, ◌*◌, ◌/◌, ◌%◌, ◌<◌, ◌≤◌}
use mathlib.Core.Logic.{◌⊎◌, inl, inr}
use mathlib.Core.Path.{◌≡◌, refl}
use mathlib.Core.Bool.{◌&&◌}
use mathlib.Core.Option
use mathlib.Core.Option.{Option, none, some}
use mathlib.Core.List.{List, [], ◌∷◌, ◌++◌}
use native.Mathlib.Omega.{arith}

-- Between two scalars, or inside one: how many bytes are to come after the next, the range of the
-- next, and the bits so far.
pub data Utf8State : Type 0 where
  ready : Utf8State
  inside : ℕ → ℕ → ℕ → ℕ → Utf8State

-- The first byte of a scalar. No scalar has two encodings, and surrogates have none.
first_byte : ℕ → Option (Utf8State × Option ℕ)
first_byte b =
    if ltb b 0x80
    then some (ready, some b)
    else if leb 0xc2 b && leb b 0xdf
    then some (inside 0 0x80 0xbf (b - 0xc0), none)
    else if leb 0xe0 b && leb b 0xef
    then some (
      inside 1 (if leb b 0xe0 then 0xa0 else 0x80) (if leb b 0xed && leb 0xed b then 0x9f else 0xbf)
          (b - 0xe0),
      none,
    )
    else if leb 0xf0 b && leb b 0xf4
    then some (
      inside 2 (if leb b 0xf0 then 0x90 else 0x80) (if leb 0xf4 b then 0x8f else 0xbf) (b - 0xf0),
      none,
    )
    else none

more_byte : ℕ → ℕ → Option (Utf8State × Option ℕ)
more_byte zero bits = some (ready, some bits)
more_byte (suc n) bits = some (inside n 0x80 0xbf bits, none)

next_byte : Utf8State → ℕ → Option (Utf8State × Option ℕ)
next_byte ready b = first_byte b
next_byte (inside n lo hi bits) b =
    if leb lo b && leb b hi then more_byte n (bits * 64 + (b - 0x80)) else none

emit : Option ℕ → Text → Text
emit none s = s
emit (some c) s = c ∷ s

utf8_from : Utf8State → List ℕ → Option Text
utf8_from ready [] = some []
utf8_from (inside n lo hi bits) [] = none
utf8_from st (b ∷ bs) = elim (next_byte st b) [
  | none ↦ none
  | some (st', out) ↦ Option.map (emit out) (utf8_from st' bs)
]

unfoldable pub from_utf8 : List ℕ → Option Text
unfolding utf8_from next_byte first_byte more_byte emit
from_utf8 bytes = utf8_from ready bytes

-- ASCII bytes are the scalars that they stand for.
pub from_utf8_ascii : (s : List ℕ) → All (λ b. b < 128) s → from_utf8 s ≡ some s
unfolding from_utf8
from_utf8_ascii [] h = refl
from_utf8_ascii (b ∷ s) (p, h) = ground (arith, from_utf8_ascii s h)

-- `str::as_bytes`.
encode : ℕ → List ℕ
encode c =
    if ltb c 0x80
    then c ∷ []
    else if ltb c 0x800
    then (0xc0 + c / 64) ∷ (0x80 + c % 64) ∷ []
    else if ltb c 0x1_0000
    then (0xe0 + c / 4096) ∷ (0x80 + c / 64 % 64) ∷ (0x80 + c % 64) ∷ []
    else (0xf0 + c / 26_2144) ∷ (0x80 + c / 4096 % 64) ∷ (0x80 + c / 64 % 64) ∷ (0x80 + c % 64) ∷ []

unfoldable pub to_utf8 : Text → List ℕ
unfolding encode
to_utf8 [] = []
to_utf8 (c ∷ s) = encode c ++ to_utf8 s

-- A Unicode scalar: no surrogate.
abbrev pub IsScalar : ℕ → Type 0
IsScalar c = (c < 0xd800) ⊎ ((0xe000 ≤ c) × (c < 0x11_0000))

utf8_from-encode :
    (c : ℕ) (bs : List ℕ)
    → IsScalar c
    → utf8_from ready (encode c ++ bs) ≡ Option.map (emit (some c)) (utf8_from ready bs)
unfolding encode utf8_from next_byte first_byte more_byte emit
utf8_from-encode c bs (inl h) = ground arith
utf8_from-encode c bs (inr (h, l)) = ground arith

-- What is encoded is read back.
pub from_utf8-to_utf8 : (s : Text) → All IsScalar s → from_utf8 (to_utf8 s) ≡ some s
unfolding from_utf8 to_utf8 emit
from_utf8-to_utf8 [] h = refl
from_utf8-to_utf8 (c ∷ s) (p, h) = rw (utf8_from-encode c (to_utf8 s) p, from_utf8-to_utf8 s h) refl
