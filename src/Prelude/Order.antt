-- ===== src/Prelude/Order.antt =====
-- A total order as an interface, with the numbers and the texts (lists of numbers) as instances.
use Prim.Native.Nat.{ℕ, compare, Ordering}
use Prim.Native.Nat.Ordering.{lt, eq, gt}
use mathlib.Core.Path.{◌≡◌, refl}
use mathlib.Core.Logic.{◌↔◌}
use mathlib.Core.Bool.{Bool, true, false}
use mathlib.Core.List.{List, [], ◌∷◌}
use native.Mathlib.Omega.{arith}

pub record Ord {ℓ} (K : Type ℓ) : Type ℓ where
  pub cmp : K → K → Ordering
  pub cmp_eq : (a b : K) → (cmp a b ≡ eq) ↔ (a ≡ b)
  pub cmp_flip : (a b : K) → (cmp a b ≡ lt) ↔ (cmp b a ≡ gt)
  pub cmp_trans : (a b c : K) → cmp a b ≡ lt → cmp b c ≡ lt → cmp a c ≡ lt

infix 50 ◌==◌
abbrev pub ◌==◌ {ℓ} : {K : Type ℓ} ⦃o : Ord K⦄ → K → K → Bool
◌==◌ ⦃o⦄ a b = elim (o.cmp a b) [ eq ↦ true | _ ↦ false ]

pub nat_cmp_eq : (a b : ℕ) → (compare a b ≡ eq) ↔ (a ≡ b)
nat_cmp_eq a b = ground arith

pub nat_cmp_flip : (a b : ℕ) → (compare a b ≡ lt) ↔ (compare b a ≡ gt)
nat_cmp_flip a b = ground arith

pub nat_cmp_trans : (a b c : ℕ) → compare a b ≡ lt → compare b c ≡ lt → compare a c ≡ lt
nat_cmp_trans a b c p q = ground arith

instance abbrev pub nat_ord : Ord ℕ
nat_ord = record {
  cmp = compare;
  cmp_eq = nat_cmp_eq;
  cmp_flip = nat_cmp_flip;
  cmp_trans = nat_cmp_trans;
}

-- The order of `String`: lexicographic on its scalars, which agrees with that on its bytes.
unfoldable pub text_cmp : List ℕ → List ℕ → Ordering
text_cmp [] [] = eq
text_cmp [] (y ∷ ys) = lt
text_cmp (x ∷ xs) [] = gt
text_cmp (x ∷ xs) (y ∷ ys) =
    let rest = text_cmp xs ys in elim (compare x y) [ lt ↦ lt | eq ↦ rest | gt ↦ gt ]

text_cmp_refl : (a : List ℕ) → text_cmp a a ≡ eq
unfolding text_cmp
text_cmp_refl [] = refl
text_cmp_refl (x ∷ xs) = ground (arith, text_cmp_refl xs)

text_cmp_sound : (a b : List ℕ) → text_cmp a b ≡ eq → a ≡ b
unfolding text_cmp
text_cmp_sound [] [] h = refl
text_cmp_sound [] (y ∷ ys) h = cc
text_cmp_sound (x ∷ xs) [] h = cc
text_cmp_sound (x ∷ xs) (y ∷ ys) h = ground (arith, text_cmp_sound xs ys)

pub text_cmp-eq : (a b : List ℕ) → (text_cmp a b ≡ eq) ↔ (a ≡ b)
text_cmp-eq a b = (text_cmp_sound a b, λ p. rw p (text_cmp_refl b))

pub text_cmp_flip : (a b : List ℕ) → (text_cmp a b ≡ lt) ↔ (text_cmp b a ≡ gt)
unfolding text_cmp
text_cmp_flip [] [] = ground arith
text_cmp_flip [] (y ∷ ys) = ground arith
text_cmp_flip (x ∷ xs) [] = ground arith
text_cmp_flip (x ∷ xs) (y ∷ ys) = ground (arith, text_cmp_flip xs ys)

pub text_cmp_trans : (a b c : List ℕ) → text_cmp a b ≡ lt → text_cmp b c ≡ lt → text_cmp a c ≡ lt
unfolding text_cmp
text_cmp_trans [] [] c p q = cc
text_cmp_trans [] (y ∷ ys) [] p q = cc
text_cmp_trans [] (y ∷ ys) (z ∷ zs) p q = refl
text_cmp_trans (x ∷ xs) [] c p q = cc
text_cmp_trans (x ∷ xs) (y ∷ ys) [] p q = cc
text_cmp_trans (x ∷ xs) (y ∷ ys) (z ∷ zs) p q = ground (arith, text_cmp_trans xs ys zs)

instance abbrev pub text_ord : Ord (List ℕ)
text_ord = record {
  cmp = text_cmp;
  cmp_eq = text_cmp-eq;
  cmp_flip = text_cmp_flip;
  cmp_trans = text_cmp_trans;
}

module _ {ℓ} {K : Type ℓ} ⦃o : Ord K⦄ where
  pub ==_iff : (a b : K) → ((a == b) ≡ true) ↔ (a ≡ b)
  ==_iff a b = ground (arith, o.cmp_eq a b)

  pub ==-refl : (a : K) → (a == a) ≡ true
  ==-refl a = (==_iff a a).1 refl
