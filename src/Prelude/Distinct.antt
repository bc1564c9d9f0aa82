-- ===== src/Prelude/Distinct.antt =====
-- Lists without a repetition.
use rs_matter_server.Prelude.Tests.{Bool-cases}
use rs_matter_server.Prelude.Lists.{any}
use rs_matter_server.Prelude.Order.{Ord, ◌==◌, ==_iff}
use mathlib.Core.Path.{◌≡◌, refl}
use mathlib.Core.Logic.{inl, inr}
use mathlib.Core.Bool.{Bool, true, false, ◌||◌}
use mathlib.Core.List.{List, [], ◌∷◌, ◌++◌}

module _ {K : Type 0} ⦃o : Ord K⦄ where
  abbrev pub has : K → List K → Bool
  has id is = any (λ i. i == id) is

  -- None twice.
  abbrev pub IsDistinct : List K → Type 0
  IsDistinct [] = Unit {0}
  IsDistinct (i ∷ is) = (has i is ≡ false) × IsDistinct is

  pub has-append : (id : K) (is more : List K) → has id (is ++ more) ≡ (has id is || has id more)
  has-append id [] more = refl
  has-append id (i ∷ is) more =
      rw (has-append id is more) (assoc (i == id) (has id is) (has id more))
    where
      assoc : (a b c : Bool) → (a || (b || c)) ≡ ((a || b) || c)
      assoc true b c = refl
      assoc false b c = refl

  pub ==_comm : (a b : K) → (a == b) ≡ (b == a)
  ==_comm a b = elim (Bool-cases (a == b)) [
    | inl e ↦ rw ((==_iff a b).0 e) refl
    | inr e ↦ elim (Bool-cases (b == a)) [
      | inl f ↦ rw ((==_iff b a).0 f) refl
      | inr f ↦ rw (e, f) refl
    ]
  ]

  pub IsDistinct-push :
      (i : K) (is : List K) → has i is ≡ false → IsDistinct is → IsDistinct (is ++ (i ∷ []))
  IsDistinct-push i [] h d = (refl, tt)
  IsDistinct-push i (j ∷ is) h (n, d) = (
    rw (has-append j is (i ∷ []), n, ==_comm i j) (left (j == i) (has i is) h),
    IsDistinct-push i is (right (j == i) (has i is) h) d,
  )
    where
      left : (a b : Bool) → (a || b) ≡ false → (a || false) ≡ false
      left false b h = refl
      left true b h = cc

      right : (a b : Bool) → (a || b) ≡ false → b ≡ false
      right false b h = h
      right true b h = cc
