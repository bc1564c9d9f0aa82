-- ===== src/Protocol/Message/Access.antt =====
-- server/src/protocol/message.rs: what the typed accessors of `Args` promise.
use rs_matter_server.Prelude.{
  ℕ, ◌≤◌, ◌≡◌, refl, String, Bool-cases, false, Option, none, some, List, [], ◌∷◌, ok, err, ◌>>=◌,
  traverse, arith, inl, inr, ok_or, ltb,
}
use rs_matter_server.Prelude.Text.{Text, show}
use rs_matter_server.Prelude.Text.Numbers.{parse_uint-show}
use rs_matter_server.Protocol.Error.{Api, ApiError, invalid_arguments}
use rs_matter_server.Protocol.Json.{Numbers, Value, u64_max, get}
use rs_matter_server.Protocol.Message.{
  Args, u32_max, u16_max, u8_max, arg, integer, must_be, missing, u64, req_u64, bounded, u32,
  req_u32, u16, req_u16, u8, str, str_of, bool, bool_of, array, array_of, u64_of, u64_items,
  at_most, narrow, req_str, bool_or, req_array, u64_array,
}

-- A failure, if there is one, carries the documented code.
abbrev pub FailsAsArguments : {A : Type 0} → Api A → Type 0
FailsAsArguments (ok a) = Unit
FailsAsArguments (err e) = e.code ≡ invalid_arguments

bind-FailsAsArguments :
    {A B : Type 0} (m : Api A) (f : A → Api B)
    → FailsAsArguments m
    → ((a : A) → FailsAsArguments (f a))
    → FailsAsArguments (m >>= f)
bind-FailsAsArguments (ok a) f hm hf = hf a
bind-FailsAsArguments (err e) f hm hf = hm

ok_or-FailsAsArguments :
    {A : Type 0} (o : Option A) (e : ApiError)
    → e.code ≡ invalid_arguments
    → FailsAsArguments (ok_or o e)
ok_or-FailsAsArguments none e h = h
ok_or-FailsAsArguments (some a) e h = tt

traverse-FailsAsArguments :
    {A B : Type 0} (f : A → Api B) (xs : List A)
    → ((a : A) → FailsAsArguments (f a))
    → FailsAsArguments (traverse f xs)
traverse-FailsAsArguments f [] h = tt
traverse-FailsAsArguments f (x ∷ xs) h =
    bind-FailsAsArguments (f x) _ (h x)
      (λ y. bind-FailsAsArguments (traverse f xs) _ (traverse-FailsAsArguments f xs h) (λ ys. tt))

must_be-code : (name : Text) (what : String) → (must_be name what).code ≡ invalid_arguments
unfolding must_be
must_be-code name what = refl

missing-code : (name : Text) → (missing name).code ≡ invalid_arguments
unfolding missing
missing-code name = refl

at_most-FailsAsArguments :
    (name : Text) (max : ℕ) (n : Option ℕ) → FailsAsArguments (at_most name max n)
unfolding at_most
at_most-FailsAsArguments name max none = tt
at_most-FailsAsArguments name max (some n) = elim (Bool-cases (ltb max n)) [
  | inl over ↦ rw over refl
  | inr within ↦ rw within tt
]

module _ {N : Type 0} (name : Text) (args : Args N) where
  str-FailsAsArguments : FailsAsArguments (str name args)
  unfolding str
  str-FailsAsArguments = of (arg name args)
    where
      of : (o : Option (Value N)) → FailsAsArguments (str_of name o)
      of none = tt
      of (some (Value.string s)) = tt
      of (some _) = must_be-code name _

  bool-FailsAsArguments : FailsAsArguments (bool name args)
  unfolding bool
  bool-FailsAsArguments = of (arg name args)
    where
      of : (o : Option (Value N)) → FailsAsArguments (bool_of name o)
      of none = tt
      of (some (Value.bool b)) = tt
      of (some _) = must_be-code name _

  array-FailsAsArguments : FailsAsArguments (array name args)
  unfolding array
  array-FailsAsArguments = of (arg name args)
    where
      of : (o : Option (Value N)) → FailsAsArguments (array_of name o)
      of none = tt
      of (some (Value.array vs)) = tt
      of (some _) = must_be-code name _

module _ {N : Type 0} ⦃num : Numbers N⦄ (name : Text) (args : Args N) where
  u64-FailsAsArguments : FailsAsArguments (u64 name args)
  unfolding u64
  u64-FailsAsArguments = of (arg name args)
    where
      of : (o : Option (Value N)) → FailsAsArguments (u64_of name o)
      of none = tt
      of (some v) =
          bind-FailsAsArguments (ok_or (integer v) _) (λ n. ok (some n))
            (ok_or-FailsAsArguments (integer v) _ (must_be-code name _)) (λ n. tt)

  bounded-FailsAsArguments : (max : ℕ) → FailsAsArguments (bounded name max args)
  unfolding bounded
  bounded-FailsAsArguments max =
      bind-FailsAsArguments (u64 name args) _ u64-FailsAsArguments
        (at_most-FailsAsArguments name max)

  u64_array-FailsAsArguments : FailsAsArguments (u64_array name args)
  unfolding u64_array
  u64_array-FailsAsArguments =
      bind-FailsAsArguments (array name args) _ (array-FailsAsArguments name args) of
    where
      of : (o : Option (List (Value N))) → FailsAsArguments (u64_items name o)
      of none = tt
      of (some vs) =
          bind-FailsAsArguments (traverse _ vs) _
            (traverse-FailsAsArguments _ vs
              (λ v. ok_or-FailsAsArguments (integer v) _ (must_be-code name _)))
            (λ ns. tt)

-- Whatever the arguments, an accessor that fails does so with `InvalidArguments`.
pub accessors_fail_as_arguments :
    {N : Type 0} ⦃num : Numbers N⦄ (name : Text) (args : Args N)
    → FailsAsArguments (req_u64 name args)
      × FailsAsArguments (req_u32 name args)
      × FailsAsArguments (req_u16 name args)
      × FailsAsArguments (u8 name args)
      × FailsAsArguments (req_str name args)
      × FailsAsArguments (bool_or name false args)
      × FailsAsArguments (req_array name args)
      × FailsAsArguments (u64_array name args)
unfolding req_u64 req_u32 req_u16 u32 u16 u8 req_str bool_or req_array
accessors_fail_as_arguments name args = (
  required (u64 name args) (u64-FailsAsArguments name args),
  required _ (narrowed_to u32_max _),
  required _ (narrowed_to u16_max _),
  narrowed_to u8_max _,
  required (str name args) (str-FailsAsArguments name args),
  bind-FailsAsArguments (bool name args) _ (bool-FailsAsArguments name args) (λ b. tt),
  required (array name args) (array-FailsAsArguments name args),
  u64_array-FailsAsArguments name args,
)
  where
    required :
        {A : Type 0} (m : Api (Option A))
        → FailsAsArguments m
        → FailsAsArguments (m >>= λ n. ok_or n (missing name))
    required m h = bind-FailsAsArguments m _ h (λ n. ok_or-FailsAsArguments n _ (missing-code name))

    narrowed_to :
        (max modulus : ℕ) → FailsAsArguments (bounded name max args >>= λ n. ok (narrow modulus n))
    narrowed_to max modulus =
        bind-FailsAsArguments (bounded name max args) _ (bounded-FailsAsArguments name args max)
          (λ n. tt)

-- The accessors narrower than 64 bits, with the largest number of each.
pub data Width : Type 0 where
  wide_32 wide_16 wide_8 : Width

abbrev pub largest : Width → ℕ
largest wide_32 = u32_max
largest wide_16 = u16_max
largest wide_8 = u8_max

abbrev pub narrowed : {N : Type 0} ⦃num : Numbers N⦄ → Width → Text → Args N → Api (Option ℕ)
narrowed wide_32 = u32
narrowed wide_16 = u16
narrowed wide_8 = u8

-- A 32, 16 or 8 bit accessor answers with the number that `u64` reads, and it is in range.
pub narrow_exact :
    {N : Type 0} ⦃num : Numbers N⦄ (w : Width) (name : Text) (args : Args N) (v : ℕ)
    → narrowed w name args ≡ ok (some v)
    → (v ≤ largest w) × (u64 name args ≡ ok (some v))
unfolding u32 u16 u8 bounded
narrow_exact wide_32 name args v h = ground arith
narrow_exact wide_16 name args v h = ground arith
narrow_exact wide_8 name args v h = ground arith

-- A node id sent as a decimal text is read as the one sent as a number.
pub u64_text :
    {N : Type 0} ⦃num : Numbers N⦄ (name : Text) (n : ℕ) (as_text as_number : Args N)
    → n ≤ u64_max
    → get name as_text ≡ some (Value.string (show n))
    → get name as_number ≡ some (Value.number (num.from_u64 n))
    → (u64 name as_text ≡ ok (some n)) × (u64 name as_number ≡ ok (some n))
unfolding u64 arg
u64_text ⦃num⦄ name n as_text as_number bound t m =
    ground (arith, parse_uint-show u64_max n bound, num.as_u64-from_u64 n bound)
