-- ===== src/Prelude/Map/Bulk.antt =====
-- `BTreeMap`: the laws of whole-map operations, filters, `extend` and the keys.
use rs_matter_server.Prelude.Tests.{if◌then◌else◌, is_some}
use rs_matter_server.Prelude.Lists.{All, keep, any}
use rs_matter_server.Prelude.Order.{Ord, ◌==◌}
use rs_matter_server.Prelude.Map.{
  Map, get, insert, extend, keys, IsSorted, IsAbove, get-insert, get-IsAbove, insert-IsSorted,
}
use Prim.Native.Nat.Ordering.{lt}
use mathlib.Core.Path.{◌≡◌, refl, sym}
use mathlib.Core.Bool.{Bool, true, ◌||◌, ◌&&◌}
use mathlib.Core.Option.{none, some}
use mathlib.Core.List.{List, [], ◌∷◌, ◌++◌, append-nil, append_assoc}
use native.Mathlib.Omega.{arith}

module _ {ℓ} {K V : Type ℓ} ⦃o : Ord K⦄ where
  absent_below : (k j : K) (m : Map K V) → IsAbove k m → k ≡ j → get j m ≡ none
  absent_below k j m a e = rw (← e) (get-IsAbove k m a)

  -- What a filter keeps of a sorted map.
  pub get-keep :
      (p : K × V → Bool) (j : K) (m : Map K V)
      → IsSorted m
      → get j (keep p m)
        ≡ elim (get j m) [ none ↦ none | some v ↦ if p (j, v) then some v else none ]
  unfolding get
  get-keep p j [] h = refl
  get-keep p j ((k, v) ∷ m) (a, h) =
      ground (arith, get-keep p j m h, absent_below k j m a, o.cmp_eq k j)

  -- `extend` by a sorted map: its entries win.
  pub get-extend :
      (j : K) (m more : Map K V)
      → IsSorted more
      → get j (extend m more) ≡ elim (get j more) [ none ↦ get j m | some v ↦ some v ]
  unfolding get extend
  get-extend j m [] h = refl
  get-extend j m ((k, v) ∷ more) (a, h) = ground (
    arith,
    get-extend j (insert k v m) more h,
    get-insert k j v m,
    absent_below k j more a,
    o.cmp_eq k j,
  )

  pub extend-IsSorted : (m more : Map K V) → IsSorted m → IsSorted (extend m more)
  unfolding extend
  extend-IsSorted m [] h = h
  extend-IsSorted m ((k, v) ∷ more) h =
      extend-IsSorted (insert k v m) more (insert-IsSorted k v m h)

  pub any-keys-insert :
      (f : K → Bool) (k : K) (v : V) (m : Map K V)
      → any f (keys (insert k v m)) ≡ (f k || any f (keys m))
  unfolding insert
  any-keys-insert f k v [] = refl
  any-keys-insert f k v ((j, w) ∷ m) = ground (arith, any-keys-insert f k v m, o.cmp_eq k j)

  -- No key is lost by `extend`.
  pub any-keys-extend :
      (f : K → Bool) (m more : Map K V)
      → any f (keys m) ≡ true
      → any f (keys (extend m more)) ≡ true
  unfolding extend
  any-keys-extend f m [] h = h
  any-keys-extend f m ((k, v) ∷ more) h =
      any-keys-extend f (insert k v m) more (rw any-keys-insert (ground arith))

  -- A key is among the keys exactly when the map has a value for it.
  pub any-keys : (j : K) (m : Map K V) → any (λ k. k == j) (keys m) ≡ is_some (get j m)
  unfolding get
  any-keys j [] = refl
  any-keys j ((k, v) ∷ m) = ground (arith, any-keys j m)

  -- A sorted map whose keys follow those of `m`, added to it, is appended.
  IsBefore : Map K V → K → Type 0
  IsBefore m k = All (λ e. o.cmp e.0 k ≡ lt) m

  insert-last : (k : K) (v : V) (m : Map K V) → IsBefore m k → insert k v m ≡ m ++ ((k, v) ∷ [])
  unfolding insert IsBefore
  insert-last k v [] h = refl
  insert-last k v ((j, w) ∷ m) (p, h) = ground (arith, insert-last k v m h, o.cmp_flip j k)

  IsBefore-trans : (m : Map K V) (k j : K) → o.cmp k j ≡ lt → IsBefore m k → IsBefore m j
  unfolding IsBefore
  IsBefore-trans [] k j p h = tt
  IsBefore-trans ((i, w) ∷ m) k j p (q, h) = (o.cmp_trans i k j q p, IsBefore-trans m k j p h)

  IsBefore-snoc :
      (m : Map K V) (k j : K) (v : V)
      → o.cmp k j ≡ lt
      → IsBefore m j
      → IsBefore (m ++ ((k, v) ∷ [])) j
  unfolding IsBefore
  IsBefore-snoc [] k j v p h = (p, tt)
  IsBefore-snoc ((i, w) ∷ m) k j v p (q, h) = (q, IsBefore-snoc m k j v p h)

  -- Where `m` is before the first key of `more`, it is before all of its keys.
  IsBeforeAll : Map K V → Map K V → Type 0
  IsBeforeAll m [] = Unit
  IsBeforeAll m ((k, v) ∷ more) = IsBefore m k

  IsBeforeAll-snoc :
      (m more : Map K V) (k : K) (v : V)
      → IsBefore m k
      → IsAbove k more
      → IsBeforeAll (m ++ ((k, v) ∷ [])) more
  unfolding IsBeforeAll
  IsBeforeAll-snoc m [] k v h a = tt
  IsBeforeAll-snoc m ((j, w) ∷ more) k v h (p, a) =
      IsBefore-snoc m k j v p (IsBefore-trans m k j p h)

  extend-appends :
      (m more : Map K V) → IsSorted more → IsBeforeAll m more → extend m more ≡ m ++ more
  unfolding extend IsBeforeAll
  extend-appends m [] s h = sym (append-nil m)
  extend-appends m ((k, v) ∷ more) (a, s) h = rw (
    insert-last k v m h,
    extend-appends (m ++ ((k, v) ∷ [])) more s (IsBeforeAll-snoc m more k v h a),
    append_assoc,
  )

  IsBeforeAll-nil : (more : Map K V) → IsBeforeAll [] more
  unfolding IsBeforeAll IsBefore
  IsBeforeAll-nil [] = tt
  IsBeforeAll-nil ((k, v) ∷ more) = tt

  -- Collecting the entries of a sorted map gives the map.
  pub extend_nil : (m : Map K V) → IsSorted m → extend [] m ≡ m
  extend_nil m s = extend-appends [] m s (IsBeforeAll-nil m)

-- What a filter keeps of a list, for a test that goes by the element sought.
pub any-keep {ℓ} :
    {K : Type ℓ} ⦃o : Ord K⦄ (p : K → Bool) (j : K) (xs : List K)
    → any (λ k. k == j) (keep p xs) ≡ (any (λ k. k == j) xs && p j)
any-keep p j [] = refl
any-keep ⦃o⦄ p j (x ∷ xs) = ground (arith, any-keep p j xs, o.cmp_eq x j)
