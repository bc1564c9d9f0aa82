-- ===== src/Prelude/Results.antt =====
-- `Result`: a fallible step returns its value or its error, and `?` is the bind.
use mathlib.Core.Path.{◌≡◌, refl}
use mathlib.Core.Logic.{◌⊎◌, inl, inr}
use mathlib.Core.Option.{Option, none, some}
use mathlib.Core.List.{List, [], ◌∷◌}

-- The error comes first, so that a fallible step in a fixed error type is `Result E`.
pub data Result {ℓ} (E A : Type ℓ) : Type ℓ where
  err : (error : E) → Result E A
  ok : (value : A) → Result E A

-- `Option::ok_or_else`.
abbrev pub ok_or {ℓ} : {E A : Type ℓ} → Option A → E → Result E A
ok_or none error = err error
ok_or (some value) error = ok value

pub Result-cases {ℓ} :
    {E A : Type ℓ} (r : Result E A)
    → ((value : A) × (r ≡ ok value)) ⊎ ((error : E) × (r ≡ err error))
Result-cases (err error) = inr (error, refl)
Result-cases (ok value) = inl (value, refl)

infixl 5 ◌>>=◌ ◌>>◌
abbrev pub ◌>>=◌ {ℓ} : {E A B : Type ℓ} (step : Result E A) (next : A → Result E B) → Result E B
err error >>= next = err error
ok value >>= next = next value

abbrev pub ◌>>◌ {ℓ} : {E A B : Type ℓ} (step : Result E A) (next : Result E B) → Result E B
step >> next = step >>= λ _. next

-- A chain that succeeds went through a step that succeeded.
pub >>=-eq-ok {ℓ} :
    {E A B : Type ℓ} (step : Result E A) (next : A → Result E B) {answer : B}
    → (step >>= next) ≡ ok answer
    → (value : A) × (step ≡ ok value) × (next value ≡ ok answer)
>>=-eq-ok (err error) next done = cc
>>=-eq-ok (ok value) next done = (value, refl, done)

-- `iter().map(f).collect::<Result<Vec<_>, _>>()`: the first error ends the walk.
abbrev pub traverse {ℓ} : {E A B : Type ℓ} → (A → Result E B) → List A → Result E (List B)
traverse f [] = ok []
traverse f (x ∷ xs) = f x >>= λ y. traverse f xs >>= λ ys. ok (y ∷ ys)
