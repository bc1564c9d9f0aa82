-- ===== src/Prelude/Map.antt =====
-- `BTreeMap`: a list of entries in the order of the keys, with the laws of its operations.
pub mod Bulk
use rs_matter_server.Prelude.Tests.{if◌then◌else◌, is_some}
use rs_matter_server.Prelude.Lists.{length, All, All-keep, keep, any}
use rs_matter_server.Prelude.Order.{Ord, ◌==◌, ==-refl}
use Prim.Native.Nat.{◌+◌, ◌≤◌}
use Prim.Native.Nat.Ordering.{lt, eq, gt}
use mathlib.Core.Path.{◌≡◌, refl}
use mathlib.Core.Bool.{Bool, false, not}
use mathlib.Core.Option.{Option, none, some}
use mathlib.Core.List.{List, [], ◌∷◌, map}
use native.Mathlib.Omega.{arith}

abbrev pub Map {ℓ} : Type ℓ → Type ℓ → Type ℓ
Map K V = List (K × V)

module _ {ℓ} {K V : Type ℓ} where
  abbrev pub keys : Map K V → List K
  keys m = map (λ e. e.0) m

  abbrev pub values : Map K V → List V
  values m = map (λ e. e.1) m

module _ {ℓ} {K V : Type ℓ} ⦃o : Ord K⦄ where
  unfoldable pub get : K → Map K V → Option V
  get k [] = none
  get k ((j, v) ∷ m) = if j == k then some v else get k m

  unfoldable pub contains_key : K → Map K V → Bool
  contains_key k m = is_some (get k m)

  unfoldable pub insert : K → V → Map K V → Map K V
  insert k v [] = (k, v) ∷ []
  insert k v ((j, w) ∷ m) =
      let rest = insert k v m in
      elim (o.cmp k j) [ lt ↦ (k, v) ∷ (j, w) ∷ m | eq ↦ (k, v) ∷ m | gt ↦ (j, w) ∷ rest ]

  unfoldable pub remove : K → Map K V → Map K V
  remove k m = keep (λ e. not (e.0 == k)) m

  unfoldable pub retain : (K → V → Bool) → Map K V → Map K V
  retain p m = keep (λ e. p e.0 e.1) m

  -- `extend`: later entries win.
  unfoldable pub extend : Map K V → Map K V → Map K V
  extend m [] = m
  extend m ((k, v) ∷ more) = extend (insert k v m) more

  pub get-insert :
      (k j : K) (v : V) (m : Map K V) → get j (insert k v m) ≡ (if k == j then some v else get j m)
  unfolding get insert
  get-insert k j v [] = refl
  get-insert k j v ((i, w) ∷ m) =
      ground (arith, get-insert k j v m, o.cmp_eq k i, o.cmp_eq k j, o.cmp_eq i j)

  pub get-insert_self : (k : K) (v : V) (m : Map K V) → get k (insert k v m) ≡ some v
  get-insert_self k v m = rw (get-insert, ==-refl)

  pub get-remove : (k j : K) (m : Map K V) → get j (remove k m) ≡ (if k == j then none else get j m)
  unfolding get remove
  get-remove k j [] = ground arith
  get-remove k j ((i, w) ∷ m) =
      ground (arith, get-remove k j m, o.cmp_eq k i, o.cmp_eq i k, o.cmp_eq k j, o.cmp_eq i j)

  -- Every key of `m` stands above `k`.
  abbrev pub IsAbove : K → Map K V → Type 0
  IsAbove k m = All (λ e. o.cmp k e.0 ≡ lt) m

  abbrev pub IsSorted : Map K V → Type 0
  IsSorted [] = Unit
  IsSorted ((k, v) ∷ m) = IsAbove k m × IsSorted m

  IsAbove-trans : (k j : K) (m : Map K V) → o.cmp k j ≡ lt → IsAbove j m → IsAbove k m
  IsAbove-trans k j [] p h = tt
  IsAbove-trans k j ((i, w) ∷ m) p (q, h) = (o.cmp_trans k j i p q, IsAbove-trans k j m p h)

  IsAbove-insert :
      (i k : K) (v : V) (m : Map K V) → o.cmp i k ≡ lt → IsAbove i m → IsAbove i (insert k v m)
  unfolding insert
  IsAbove-insert i k v [] p h = (p, tt)
  IsAbove-insert i k v ((j, w) ∷ m) p (q, h) = ground (arith, IsAbove-insert i k v m)

  pub insert-IsSorted : (k : K) (v : V) (m : Map K V) → IsSorted m → IsSorted (insert k v m)
  unfolding insert
  insert-IsSorted k v [] h = (tt, tt)
  insert-IsSorted k v ((j, w) ∷ m) (a, h) = ground (
    arith,
    insert-IsSorted k v m,
    IsAbove-insert j k v m,
    IsAbove-trans k j m,
    o.cmp_eq k j,
    o.cmp_flip j k,
  )

  pub keep-IsSorted : (p : K × V → Bool) (m : Map K V) → IsSorted m → IsSorted (keep p m)
  keep-IsSorted p [] h = tt
  keep-IsSorted p ((k, v) ∷ m) (a, h) =
      ground (arith, keep-IsSorted p m h, All-keep (λ e. o.cmp k e.0 ≡ lt) p m a)

  pub remove-IsSorted : (k : K) (m : Map K V) → IsSorted m → IsSorted (remove k m)
  unfolding remove
  remove-IsSorted k m h = keep-IsSorted _ m h

  pub length-insert : (k : K) (v : V) (m : Map K V) → length (insert k v m) ≤ length m + 1
  unfolding insert
  length-insert k v [] = omega arith
  length-insert k v ((j, w) ∷ m) = ground (arith, length-insert k v m)

  -- A key below every key of the map is not in it.
  pub get-IsAbove : (k : K) (m : Map K V) → IsAbove k m → get k m ≡ none
  unfolding get
  get-IsAbove k [] h = refl
  get-IsAbove k ((j, w) ∷ m) (p, h) =
      ground (arith, get-IsAbove k m h, o.cmp_eq j k, o.cmp_flip k j)

  -- In a sorted map a key stands once: a test of the values is the test of the key's value.
  pub any-keys-keep :
      (p : V → Bool) (j : K) (m : Map K V)
      → IsSorted m
      → any (λ k. k == j) (keys (keep (λ e. p e.1) m))
        ≡ elim (get j m) [ none ↦ false | some v ↦ p v ]
  unfolding get
  any-keys-keep p j [] h = refl
  any-keys-keep p j ((k, v) ∷ m) (a, h) =
      ground (arith, any-keys-keep p j m h, above_is_absent k j m a, o.cmp_eq k j)
    where
      above_is_absent : (k j : K) (m : Map K V) → IsAbove k m → k ≡ j → get j m ≡ none
      above_is_absent k j m a e = rw (← e) (get-IsAbove k m a)

  -- `remove` for each key of a list.
  unfoldable pub remove_all : List K → Map K V → Map K V
  remove_all [] m = m
  remove_all (k ∷ ks) m = remove_all ks (remove k m)

  pub get-remove_all :
      (ks : List K) (j : K) (m : Map K V)
      → get j (remove_all ks m) ≡ (if any (λ k. k == j) ks then none else get j m)
  unfolding remove_all
  get-remove_all [] j m = refl
  get-remove_all (k ∷ ks) j m = ground (arith, get-remove_all ks j (remove k m), get-remove k j m)

  pub remove_all-IsSorted : (ks : List K) (m : Map K V) → IsSorted m → IsSorted (remove_all ks m)
  unfolding remove_all
  remove_all-IsSorted [] m h = h
  remove_all-IsSorted (k ∷ ks) m h = remove_all-IsSorted ks (remove k m) (remove-IsSorted k m h)
