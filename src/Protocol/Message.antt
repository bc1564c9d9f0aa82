-- ===== src/Protocol/Message.antt =====
-- server/src/protocol/message.rs: requests, the response envelope and typed argument access.
pub mod Access
pub mod Envelope
mod Tests
use rs_matter_server.Prelude.{
  ℕ, ◌++◌, ◌-◌, ◌^◌, ◌%◌, String, Bool, true, false, Option, none, some, List, [], ◌∷◌, Result, ok,
  err, ◌>>=◌, ok_or, traverse, unwrap_or, ltb, if◌then◌else◌,
}
use rs_matter_server.Prelude.Text.{Text, text, show, parse_uint}
use rs_matter_server.Protocol.Error.{Api, ApiError, invalid_args, as_i64}
use rs_matter_server.Protocol.Json.{
  Numbers, Value, Fields, end, field, u64_max, get, as_str, as_u64, items,
}

abbrev pub u32_max : ℕ
u32_max = 2 ^ 32 - 1

abbrev pub u16_max : ℕ
u16_max = 2 ^ 16 - 1

abbrev pub u8_max : ℕ
u8_max = 2 ^ 8 - 1

-- `Args` is a newtype of a value.
abbrev pub Args : Type 0 → Type 0
Args N = Value N

pub record Request (N : Type 0) : Type 0 where
  pub message_id : Value N
  pub command : Option Text
  pub args : Args N

unfoldable pub must_be : Text → String → ApiError
unfolding invalid_args
must_be name what = invalid_args (name ++ text what)

unfoldable pub missing : Text → ApiError
unfolding invalid_args
missing name = invalid_args (text "Missing " ++ name)

at_most : Text → ℕ → Option ℕ → Api (Option ℕ)
unfolding invalid_args
at_most name max none = ok none
at_most name max (some n) =
    if ltb max n
    then err (invalid_args (name ++ (text " must be at most " ++ show max)))
    else ok (some n)

-- `as u32` after the bound: it takes the low bits.
narrow : ℕ → Option ℕ → Option ℕ
narrow modulus none = none
narrow modulus (some n) = some (n % modulus)

module _ {N : Type 0} where
  command_of : Option (Value N) → Option Text
  command_of none = none
  command_of (some v) = as_str v

  unfoldable pub from_value : Value N → Request N
  unfolding command_of get
  from_value raw = record {
    message_id = unwrap_or (get (text "message_id") raw) (Value.string []);
    command = command_of (get (text "command") raw);
    args = unwrap_or (get (text "args") raw) Value.null;
  }

  non_null : Option (Value N) → Option (Value N)
  non_null (some Value.null) = none
  non_null none = none
  non_null (some v) = some v

  -- `Args::get`: an absent field and a null one are the same.
  unfoldable pub arg : Text → Args N → Option (Value N)
  unfolding non_null
  arg name args = non_null (get name args)

  unfoldable pub is_empty : Args N → Bool
  is_empty Value.null = true
  is_empty (Value.object end) = true
  is_empty _ = false

  str_of : Text → Option (Value N) → Api (Option Text)
  str_of name none = ok none
  str_of name (some (Value.string s)) = ok (some s)
  str_of name (some v) = err (must_be name " must be a string")

  unfoldable pub str : Text → Args N → Api (Option Text)
  unfolding str_of
  str name args = str_of name (arg name args)

  unfoldable pub req_str : Text → Args N → Api Text
  unfolding missing
  req_str name args = str name args >>= λ s. ok_or s (missing name)

  bool_of : Text → Option (Value N) → Api (Option Bool)
  bool_of name none = ok none
  bool_of name (some (Value.bool b)) = ok (some b)
  bool_of name (some v) = err (must_be name " must be a boolean")

  unfoldable pub bool : Text → Args N → Api (Option Bool)
  unfolding bool_of
  bool name args = bool_of name (arg name args)

  unfoldable pub bool_or : Text → Bool → Args N → Api Bool
  bool_or name default args = bool name args >>= λ b. ok (unwrap_or b default)

  array_of : Text → Option (Value N) → Api (Option (List (Value N)))
  array_of name none = ok none
  array_of name (some (Value.array vs)) = ok (some (items vs))
  array_of name (some v) = err (must_be name " must be an array")

  unfoldable pub array : Text → Args N → Api (Option (List (Value N)))
  unfolding array_of
  array name args = array_of name (arg name args)

  unfoldable pub req_array : Text → Args N → Api (List (Value N))
  unfolding missing
  req_array name args = array name args >>= λ vs. ok_or vs (missing name)

module _ {N : Type 0} ⦃num : Numbers N⦄ where
  -- A number, or a text that `u64::from_str` reads.
  unfoldable pub integer : Value N → Option ℕ
  integer (Value.number n) = num.as_u64 n
  integer (Value.string s) = parse_uint 10 u64_max s
  integer _ = none

  u64_of : Text → Option (Value N) → Api (Option ℕ)
  unfolding integer
  u64_of name none = ok none
  u64_of name (some v) =
      ok_or (integer v) (must_be name " must be a positive integer") >>= λ n. ok (some n)

  unfoldable pub u64 : Text → Args N → Api (Option ℕ)
  unfolding u64_of
  u64 name args = u64_of name (arg name args)

  unfoldable pub req_u64 : Text → Args N → Api ℕ
  unfolding missing
  req_u64 name args = u64 name args >>= λ n. ok_or n (missing name)

  unfoldable pub bounded : Text → ℕ → Args N → Api (Option ℕ)
  unfolding at_most
  bounded name max args = u64 name args >>= at_most name max

  unfoldable pub u32 : Text → Args N → Api (Option ℕ)
  unfolding narrow
  u32 name args = bounded name u32_max args >>= λ n. ok (narrow (2 ^ 32) n)

  unfoldable pub req_u32 : Text → Args N → Api ℕ
  unfolding missing
  req_u32 name args = u32 name args >>= λ n. ok_or n (missing name)

  unfoldable pub u16 : Text → Args N → Api (Option ℕ)
  unfolding narrow
  u16 name args = bounded name u16_max args >>= λ n. ok (narrow (2 ^ 16) n)

  unfoldable pub req_u16 : Text → Args N → Api ℕ
  unfolding missing
  req_u16 name args = u16 name args >>= λ n. ok_or n (missing name)

  unfoldable pub u8 : Text → Args N → Api (Option ℕ)
  unfolding narrow
  u8 name args = bounded name u8_max args >>= λ n. ok (narrow (2 ^ 8) n)

  u64_items : Text → Option (List (Value N)) → Api (Option (List ℕ))
  unfolding integer
  u64_items name none = ok none
  u64_items name (some vs) =
      traverse (λ v. ok_or (integer v) (must_be name " must be an array of integers")) vs >>= λ ns.
      ok (some ns)

  unfoldable pub u64_array : Text → Args N → Api (Option (List ℕ))
  unfolding u64_items
  u64_array name args = array name args >>= u64_items name

  -- `json!` writes the fields of an object in the order of their names.
  unfoldable pub response_envelope : Value N → Api (Value N) → Value N
  response_envelope message_id (ok result) =
      Value.object (field (text "message_id") message_id (field (text "result") result end))
  response_envelope message_id (err error) = Value.object (
      field (text "details") (Value.string error.details) (
        field (text "error_code") (Value.number (num.from_u64 (as_i64 error.code)))
          (field (text "message_id") message_id end)))
