-- ===== src/Prelude/Text/Trim.antt =====
-- `str::trim` and the comparison that ignores ASCII case, as a comparison of folded texts.
use rs_matter_server.Prelude.Order.{text_ord}
use Prim.Native.Nat.{ℕ}
use rs_matter_server.Prelude.Text.{Text, is_whitespace, trim_start, trim, lower, to_ascii_lowercase}
use mathlib.Core.Path.{◌≡◌, refl}
use mathlib.Core.Bool.{Bool, false}
use mathlib.Core.List.{[], ◌∷◌, ◌++◌, reverse, reverse-cons, reverse-reverse}
use native.Mathlib.Omega.{arith}

leads : Text → Bool
leads [] = false
leads (c ∷ s) = is_whitespace c

trim_start_of_leads : (s : Text) → leads s ≡ false → trim_start s ≡ s
unfolding leads trim_start
trim_start_of_leads [] h = refl
trim_start_of_leads (c ∷ s) h = rw h refl

leads-trim_start : (s : Text) → leads (trim_start s) ≡ false
unfolding leads trim_start
leads-trim_start [] = refl
leads-trim_start (c ∷ s) = ground (arith, leads-trim_start s)

leads-append : (xs ys : Text) → leads (xs ++ ys) ≡ false → leads xs ≡ false
unfolding leads
leads-append [] ys h = refl
leads-append (x ∷ xs) ys h = h

leads-reverse : (c : ℕ) (s : Text) → leads (reverse (c ∷ s)) ≡ false → leads (reverse s) ≡ false
leads-reverse c s h = leads-append (reverse s) (c ∷ []) (rw (← reverse-cons) h)

leads-reverse-trim_start :
    (s : Text) → leads (reverse s) ≡ false → leads (reverse (trim_start s)) ≡ false
unfolding trim_start
leads-reverse-trim_start [] h = h
leads-reverse-trim_start (c ∷ s) h = ground (arith, leads-reverse c s, leads-reverse-trim_start s)

pub trim_idempotent : (s : Text) → trim (trim s) ≡ trim s
unfolding trim
trim_idempotent s =
    let y : Text = trim_start s in
    let z : Text = trim_start (reverse y) in
    let front : leads (reverse z) ≡ false =
      leads-reverse-trim_start (reverse y) (rw reverse-reverse (leads-trim_start s)) in
    rw
      (
        trim_start_of_leads (reverse z) front,
        reverse-reverse,
        trim_start_of_leads z (leads-trim_start (reverse y)),
      )
      refl

lower_idempotent : (c : ℕ) → lower (lower c) ≡ lower c
unfolding lower
lower_idempotent c = ground arith

pub to_ascii_lowercase_idempotent :
    (s : Text) → to_ascii_lowercase (to_ascii_lowercase s) ≡ to_ascii_lowercase s
unfolding to_ascii_lowercase
to_ascii_lowercase_idempotent [] = refl
to_ascii_lowercase_idempotent (c ∷ s) =
    rw (lower_idempotent c, to_ascii_lowercase_idempotent s) refl
