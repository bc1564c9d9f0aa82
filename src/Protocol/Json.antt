-- ===== src/Protocol/Json.antt =====
-- The `Value` of serde_json, by the variants that the source matches on. Its numbers are a
-- parameter: what the source relies on is `as_u64`, which answers for what fits a `u64`, the way
-- back from a `u64`, and equality, which is reflexive because no JSON number is NaN.
use rs_matter_server.Prelude.{
  ℕ, ◌≡◌, ◌≤◌, ◌-◌, ◌^◌, refl, Bool, true, false, ◌&&◌, Option, none, some, List, [], ◌∷◌, arith,
  if◌then◌else◌, ◌==◌, nat_ord, text_ord, leb, ==-refl,
}
use rs_matter_server.Prelude.Text.{Text}

abbrev pub u64_max : ℕ
u64_max = 2 ^ 64 - 1

pub record Numbers (N : Type 0) : Type 0 where
  pub as_u64 : N → Option ℕ
  pub number_eq : N → N → Bool
  pub as_u64_bound : (n : N) (v : ℕ) → as_u64 n ≡ some v → v ≤ u64_max
  pub number_eq-refl : (n : N) → number_eq n n ≡ true
  pub from_u64 : ℕ → N
  pub as_u64-from_u64 : (v : ℕ) → v ≤ u64_max → as_u64 (from_u64 v) ≡ some v

mutual
  pub data Value (N : Type 0) : Type 0 where
    null : Value N
    bool : Bool → Value N
    number : N → Value N
    string : Text → Value N
    array : Items N → Value N
    object : Fields N → Value N

  pub data Items (N : Type 0) : Type 0 where
    nil : Items N
    cons : Value N → Items N → Items N

  pub data Fields (N : Type 0) : Type 0 where
    end : Fields N
    field : Text → Value N → Fields N → Fields N

module _ {N : Type 0} where
  abbrev pub items : Items N → List (Value N)
  items nil = []
  items (cons v vs) = v ∷ items vs

  -- `Value::get` on an object's fields.
  unfoldable pub get_field : Text → Fields N → Option (Value N)
  get_field k end = none
  get_field k (field j v fs) = if j == k then some v else get_field k fs

  -- `Value::get(name)`: `None` where the value is no object.
  unfoldable pub get : Text → Value N → Option (Value N)
  unfolding get_field
  get k (object fs) = get_field k fs
  get k _ = none

  abbrev pub as_str : Value N → Option Text
  as_str (string s) = some s
  as_str _ = none

  abbrev pub as_array : Value N → Option (List (Value N))
  as_array (array vs) = some (items vs)
  as_array _ = none

module _ {N : Type 0} ⦃num : Numbers N⦄ where
  -- `Value::as_u64`.
  abbrev pub as_u64 : Value N → Option ℕ
  as_u64 (number n) = num.as_u64 n
  as_u64 _ = none

unfoldable mutual
  pub value_eq : {N : Type 0} ⦃num : Numbers N⦄ → Value N → Value N → Bool
  value_eq null null = true
  value_eq (bool true) (bool true) = true
  value_eq (bool false) (bool false) = true
  value_eq ⦃num⦄ (number a) (number b) = num.number_eq a b
  value_eq (string a) (string b) = a == b
  value_eq (array a) (array b) = items_eq a b
  value_eq (object a) (object b) = fields_eq a b
  value_eq _ _ = false

  pub items_eq : {N : Type 0} ⦃num : Numbers N⦄ → Items N → Items N → Bool
  items_eq nil nil = true
  items_eq (cons v vs) (cons w ws) = value_eq v w && items_eq vs ws
  items_eq _ _ = false

  pub fields_eq : {N : Type 0} ⦃num : Numbers N⦄ → Fields N → Fields N → Bool
  fields_eq end end = true
  fields_eq (field j v fs) (field k w gs) = j == k && (value_eq v w && fields_eq fs gs)
  fields_eq _ _ = false

mutual
  unfolding value_eq items_eq fields_eq

  pub value_eq_refl : {N : Type 0} ⦃num : Numbers N⦄ (v : Value N) → value_eq v v ≡ true
  value_eq_refl null = refl
  value_eq_refl (bool true) = refl
  value_eq_refl (bool false) = refl
  value_eq_refl ⦃num⦄ (number a) = num.number_eq-refl a
  value_eq_refl (string a) = ==-refl a
  value_eq_refl (array a) = items_eq_refl a
  value_eq_refl (object a) = fields_eq_refl a

  pub items_eq_refl : {N : Type 0} ⦃num : Numbers N⦄ (vs : Items N) → items_eq vs vs ≡ true
  items_eq_refl nil = refl
  items_eq_refl (cons v vs) = rw (value_eq_refl v) (items_eq_refl vs)

  pub fields_eq_refl : {N : Type 0} ⦃num : Numbers N⦄ (fs : Fields N) → fields_eq fs fs ≡ true
  fields_eq_refl end = refl
  fields_eq_refl (field j v fs) = rw (==-refl j) (rw (value_eq_refl v) (fields_eq_refl fs))

-- Numbers that are all non-negative integers, to run the model on.
unfoldable pub nat_as_u64 : ℕ → Option ℕ
nat_as_u64 n = if leb n u64_max then some n else none

pub nat_as_u64_bound : (n v : ℕ) → nat_as_u64 n ≡ some v → v ≤ u64_max
unfolding nat_as_u64
nat_as_u64_bound n v h = ground arith

pub nat_as_u64_total : (v : ℕ) → v ≤ u64_max → nat_as_u64 v ≡ some v
unfolding nat_as_u64
nat_as_u64_total v h = ground arith

unfoldable pub nat_numbers : Numbers ℕ
unfolding nat_as_u64
nat_numbers = record {
  as_u64 = nat_as_u64;
  number_eq = λ a b. a == b;
  as_u64_bound = nat_as_u64_bound;
  number_eq-refl = ==-refl;
  from_u64 = λ v. v;
  as_u64-from_u64 = nat_as_u64_total;
}
