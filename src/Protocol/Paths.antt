-- ===== src/Protocol/Paths.antt =====
-- server/src/protocol/paths.rs: attribute paths, `endpoint/cluster/attribute`.
pub mod Laws
mod Tests
use rs_matter_server.Prelude.{
  ℕ, ◌++◌, ◌%◌, ◌^◌, Bool, true, false, ◌||◌, not, Option, none, some, List, [], ◌∷◌, Result, ok,
  err, ◌>>=◌, ok_or, traverse, is_some, ltb, if◌then◌else◌, ◌==◌, text_ord, String,
}
use rs_matter_server.Prelude.Text.{Text, text, show, parse_uint, split}
use rs_matter_server.Protocol.Error.{Api, ApiError, invalid_args}
use rs_matter_server.Protocol.Json.{Numbers, Value, u64_max, as_str, items}
use rs_matter_server.Protocol.Message.{Args, u16_max, u32_max, arg}

pub record ParsedPath : Type 0 where
  pub endpoint : Option ℕ
  pub cluster : Option ℕ
  pub attribute : Option ℕ

unfoldable pub has_wildcard : ParsedPath → Bool
has_wildcard p = not (is_some p.endpoint) || (not (is_some p.cluster) || not (is_some p.attribute))

unfoldable pub format_path : ℕ → ℕ → ℕ → Text
format_path endpoint cluster attribute =
    show endpoint ++ b'/' ∷ (show cluster ++ b'/' ∷ show attribute)

unfoldable pub invalid_segment : Text → Text → ApiError
unfolding invalid_args
invalid_segment name raw =
    invalid_args (text "Invalid " ++ (name ++ (text " '" ++ (raw ++ text "' in attribute path"))))

unfoldable pub invalid_path : Text → ApiError
unfolding invalid_args
invalid_path raw =
    invalid_args
      (text "Invalid attribute path '" ++ (raw ++ text "': expected endpoint/cluster/attribute"))

in_range : Text → Text → ℕ → Option ℕ → Api (Option ℕ)
in_range raw name max none = err (invalid_segment name raw)
in_range raw name max (some value) =
    if ltb max value then err (invalid_segment name raw) else ok (some value)

-- The closure `segment`: a `*` is no value, and anything else is a number of at most `max`.
unfoldable pub segment : Text → Text → ℕ → Api (Option ℕ)
unfolding in_range
segment raw name max =
    if raw == text "*" then ok none else in_range raw name max (parse_uint 10 u64_max raw)

-- `as u16` and `as u32` after the bound: they take the low bits.
narrow : ℕ → Option ℕ → Option ℕ
narrow modulus none = none
narrow modulus (some n) = some (n % modulus)

parse_parts : Text → List Text → Api ParsedPath
unfolding narrow
parse_parts raw (a ∷ b ∷ c ∷ []) = do
  e ← segment a (text "endpoint") u16_max
  k ← segment b (text "cluster") u32_max
  t ← segment c (text "attribute") u32_max
  ok (record {
    endpoint = narrow (2 ^ 16) e;
    cluster = narrow (2 ^ 32) k;
    attribute = narrow (2 ^ 32) t;
  })
parse_parts raw _ = err (invalid_path raw)

unfoldable pub parse_path : Text → Api ParsedPath
unfolding parse_parts
parse_path raw = parse_parts raw (split b'/' raw)

unfoldable pub bad_entry : ApiError
unfolding invalid_args
bad_entry = invalid_args (text "attribute_path entries must be strings")

unfoldable pub not_strings : ApiError
unfolding invalid_args
not_strings = invalid_args (text "attribute_path must be a string or an array of strings")

unfoldable pub no_path : ApiError
unfolding invalid_args
no_path = invalid_args (text "At least one attribute path is required")

unfoldable pub no_argument : ApiError
unfolding invalid_args
no_argument = invalid_args (text "Missing attribute_path")

unfoldable pub one_only : ApiError
unfolding invalid_args
one_only = invalid_args (text "write_attribute accepts exactly one attribute path")

unfoldable pub no_wildcards : ApiError
unfolding invalid_args
no_wildcards = invalid_args (text "write_attribute does not support wildcards in attribute path")

non_empty : List ParsedPath → Api (List ParsedPath)
non_empty [] = err no_path
non_empty (p ∷ ps) = ok (p ∷ ps)

single : List ParsedPath → Api ParsedPath
single (p ∷ []) = ok p
single _ = err one_only

concrete : Option ℕ → Option ℕ → Option ℕ → Api (ℕ × ℕ × ℕ)
concrete (some e) (some c) (some a) = ok (e, c, a)
concrete _ _ _ = err no_wildcards

module _ {N : Type 0} where
  parse_entry : Value N → Api ParsedPath
  parse_entry item = ok_or (as_str item) bad_entry >>= parse_path

  parse_value : Value N → Api (List ParsedPath)
  unfolding parse_entry
  parse_value (Value.string path) = parse_path path >>= λ p. ok (p ∷ [])
  parse_value (Value.array vs) = traverse parse_entry (items vs)
  parse_value _ = err not_strings

  unfoldable pub parse_path_arg : Args N → Api (List ParsedPath)
  unfolding parse_value non_empty
  parse_path_arg args = do
    value ← ok_or (arg (text "attribute_path") args) no_argument
    paths ← parse_value value
    non_empty paths

  unfoldable pub parse_write_path : Args N → Api (ℕ × ℕ × ℕ)
  unfolding single concrete
  parse_write_path args = do
    paths ← parse_path_arg args
    path ← single paths
    concrete path.endpoint path.cluster path.attribute
