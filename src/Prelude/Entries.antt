-- ===== src/Prelude/Entries.antt =====
-- A list of entries with a key each: finding, replacing the first or adding, removing.
use rs_matter_server.Prelude.Tests.{if◌then◌else◌, Option-cases, Bool-cases}
use rs_matter_server.Prelude.Lists.{find, update_first, keep}
use rs_matter_server.Prelude.Order.{Ord, ◌==◌, ==_iff}
use mathlib.Core.Path.{◌≡◌, refl}
use mathlib.Core.Logic.{inl, inr}
use mathlib.Core.Bool.{Bool, not}
use mathlib.Core.Option.{Option, none, some}
use mathlib.Core.List.{List, [], ◌∷◌, ◌++◌}
use native.Mathlib.Omega.{arith}

module _ {ℓ κ} {K : Type κ} ⦃o : Ord K⦄ {E : Type ℓ} (key : E → K) where
  abbrev pub find_key : K → List E → Option E
  find_key k es = find (λ e. key e == k) es

  abbrev pub put_key : E → List E → List E
  put_key entry es = elim (find_key (key entry) es) [
    | some e ↦ update_first (λ e. key e == key entry) (λ e. entry) es
    | none ↦ es ++ (entry ∷ [])
  ]

  find_key-append :
      (entry : E) (es : List E) (k : K)
      → find_key (key entry) es ≡ none
      → find_key k (es ++ (entry ∷ [])) ≡ (if key entry == k then some entry else find_key k es)
  find_key-append entry [] k h = refl
  find_key-append entry (e ∷ es) k h = ground (
    arith,
    find_key-append entry es k,
    o.cmp_eq (key e) (key entry),
    o.cmp_eq (key entry) k,
    o.cmp_eq (key e) k,
  )

  find_key-update :
      (entry found : E) (es : List E) (k : K)
      → find_key (key entry) es ≡ some found
      → find_key k (update_first (λ e. key e == key entry) (λ e. entry) es)
        ≡ (if key entry == k then some entry else find_key k es)
  find_key-update entry found [] k h = cc
  find_key-update entry found (e ∷ es) k h = ground (
    arith,
    find_key-update entry found es k,
    o.cmp_eq (key e) (key entry),
    o.cmp_eq (key entry) k,
    o.cmp_eq (key e) k,
  )

  pub find_key-put :
      (entry : E) (es : List E) (k : K)
      → find_key k (put_key entry es) ≡ (if key entry == k then some entry else find_key k es)
  find_key-put entry es k = elim (Option-cases (find_key (key entry) es)) [
    | inl e ↦ rw (put_key, e) (find_key-append entry es k e)
    | inr (f, e) ↦ rw (put_key, e) (find_key-update entry f es k e)
  ]

  pub find_key-keep :
      (k : K) (es : List E) (j : K)
      → find_key j (keep (λ e. not (key e == k)) es) ≡ (if k == j then none else find_key j es)
  find_key-keep k [] j = ground arith
  find_key-keep k (e ∷ es) j =
      ground (arith, find_key-keep k es j, o.cmp_eq (key e) k, o.cmp_eq k j, o.cmp_eq (key e) j)

  pub key-find_key : (k : K) (es : List E) (e : E) → find_key k es ≡ some e → key e ≡ k
  key-find_key k [] e h = cc
  key-find_key k (d ∷ es) e h = ground (arith, key-find_key k es e, o.cmp_eq (key d) k)

  -- No two entries have one key.
  abbrev pub IsUnique : List E → Type (ℓ ⊔ κ)
  IsUnique [] = Unit
  IsUnique (e ∷ es) = (find_key (key e) es ≡ none) × IsUnique es

  pub IsUnique-append :
      (entry : E) (es : List E)
      → find_key (key entry) es ≡ none
      → IsUnique es
      → IsUnique (es ++ (entry ∷ []))
  IsUnique-append entry [] h u = (refl, tt)
  IsUnique-append entry (e ∷ es) h (n, u) = ground (
    arith,
    IsUnique-append entry es,
    find_key-append entry es (key e),
    o.cmp_eq (key e) (key entry),
    o.cmp_eq (key entry) (key e),
  )

  IsUnique-update :
      (entry found : E) (es : List E)
      → find_key (key entry) es ≡ some found
      → IsUnique es
      → IsUnique (update_first (λ e. key e == key entry) (λ e. entry) es)
  IsUnique-update entry found [] h u = cc
  IsUnique-update entry found (e ∷ es) h (n, u) = elim (Bool-cases (key e == key entry)) [
    | inl here ↦ rw (update_first, here) (rw (← (==_iff (key e) (key entry)).0 here) n, u)
    | inr there ↦ ground (
      arith,
      IsUnique-update entry found es,
      find_key-update entry found es (key e),
      o.cmp_eq (key e) (key entry),
      o.cmp_eq (key entry) (key e),
    )
  ]

  pub IsUnique-put : (entry : E) (es : List E) → IsUnique es → IsUnique (put_key entry es)
  IsUnique-put entry es u = elim (Option-cases (find_key (key entry) es)) [
    | inl e ↦ rw (put_key, e) (IsUnique-append entry es e u)
    | inr (f, e) ↦ rw (put_key, e) (IsUnique-update entry f es e u)
  ]

  find_key-keep-none :
      (p : E → Bool) (k : K) (es : List E) → find_key k es ≡ none → find_key k (keep p es) ≡ none
  find_key-keep-none p k [] h = refl
  find_key-keep-none p k (e ∷ es) h = ground (arith, find_key-keep-none p k es)

  pub IsUnique-keep : (p : E → Bool) (es : List E) → IsUnique es → IsUnique (keep p es)
  IsUnique-keep p [] u = tt
  IsUnique-keep p (e ∷ es) (n, u) =
      ground (arith, IsUnique-keep p es, find_key-keep-none p (key e) es)
