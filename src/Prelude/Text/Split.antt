-- ===== src/Prelude/Text/Split.antt =====
-- Splitting a text that was joined by the separator.
use rs_matter_server.Prelude.Lists.{All}
use rs_matter_server.Prelude.Order.{nat_ord}
use rs_matter_server.Prelude.Text.{Text, split}
use Prim.Native.Nat.{ℕ}
use mathlib.Core.Path.{◌≡◌, refl}
use mathlib.Core.Logic.{◌≢◌}
use mathlib.Core.List.{[], ◌∷◌, ◌++◌}
use native.Mathlib.Omega.{arith}

abbrev pub Lacks : ℕ → Text → Type 0
Lacks sep s = All (λ c. c ≢ sep) s

pub split_of_Lacks : (sep : ℕ) (p : Text) → Lacks sep p → split sep p ≡ p ∷ []
unfolding split
split_of_Lacks sep [] h = refl
split_of_Lacks sep (c ∷ p) (n, h) = ground (arith, split_of_Lacks sep p h)

pub split-append :
    (sep : ℕ) (p rest : Text) → Lacks sep p → split sep (p ++ sep ∷ rest) ≡ p ∷ split sep rest
unfolding split
split-append sep [] rest h = ground arith
split-append sep (c ∷ p) rest (n, h) = ground (arith, split-append sep p rest h)
