-- ===== src/Migrate/Value.antt =====
-- server/src/migrate/value.rs: the values that matter.js persists. What serde_json and the float type
-- do is a parameter.
pub mod Stable
use Prim.Native.Nat.{max}
use rs_matter_server.Prelude.{
  and_then, or_else, ℕ, zero, suc, ◌-◌, ◌*◌, ◌^◌, ◌≤◌, Bool, true, false, not, ◌&&◌, ◌||◌, Option,
  none, some, List, [], ◌∷◌, ◌++◌, ◌==◌, text_ord, nat_ord, any, all, length, leb, if◌then◌else◌,
  map,
}
use rs_matter_server.Prelude.Int.{ℤ, pos, negsuc, to_unsigned}
use rs_matter_server.Prelude.Text.{Text, text, parse_uint, split}
use rs_matter_server.Prelude.Text.Hex.{hex_pairs}
use rs_matter_server.Prelude.Text.Affix.{starts_with, ends_with}
use rs_matter_server.Protocol.Json
use rs_matter_server.Protocol.Json.{Numbers, Value, Items, Fields, as_str, u64_max}

-- What the code asks of serde_json's numbers and texts, and of `f64`: a number as an `i64` and as a
-- float, its text, a document's value, a float's text read, and a float that is a whole number and
-- not negative as a `u64`.
pub record Formats (N F : Type 0) : Type 0 where
  pub as_i64 : N → Option ℤ
  pub as_f64 : N → F
  pub number_text : N → Text
  pub parse_json : Text → Option (Value N)
  pub parse_f64 : Text → Option F
  pub whole_u64 : F → Option ℕ

mutual
  pub data MjValue (F : Type 0) : Type 0 where
    null : MjValue F
    bool : Bool → MjValue F
    number : F → MjValue F
    big_int : ℤ → MjValue F
    string : Text → MjValue F
    bytes : List ℕ → MjValue F
    array : MjItems F → MjValue F
    object : MjFields F → MjValue F

  pub data MjItems (F : Type 0) : Type 0 where
    nil : MjItems F
    cons : MjValue F → MjItems F → MjItems F

  pub data MjFields (F : Type 0) : Type 0 where
    end : MjFields F
    field : Text → MjValue F → MjFields F → MjFields F

-- `i128::from_str`, whose values past 128 bits are refused.
unfoldable pub parse_i128 : Text → Option ℤ
parse_i128 [] = none
parse_i128 (c ∷ s) =
    if c == b'-'
    then elim (if any (λ d. d == b'+') s then none else parse_uint 10 (2 ^ 127) s) [
      | none ↦ none
      | some zero ↦ some (pos 0)
      | some (suc n) ↦ some (negsuc n)
    ]
    else elim (parse_uint 10 (2 ^ 127 - 1) (c ∷ s)) [ none ↦ none | some n ↦ some (pos n) ]

abbrev pub type_key : Text
type_key = text "__object__"

abbrev pub value_key : Text
value_key = text "__value__"

abbrev pub tag_prefix : Text
tag_prefix = b'{' ∷ b'"' ∷ type_key ++ (b'"' ∷ b':' ∷ b'"' ∷ [])

-- Which of the code's arms a tag is matched by.
pub data Kind : Type 0 where
  undefined wide_id uint8_array map_entries narrow_id unknown : Kind

abbrev pub wide_names : List Text
wide_names = text "BigInt" ∷ text "NodeId" ∷ text "FabricId" ∷ text "EventNumber" ∷ []

abbrev pub narrow_names : List Text
narrow_names =
    text "AttributeId"
    ∷ text "CaseAuthenticatedTag"
    ∷ text "ClusterId"
    ∷ text "CommandId"
    ∷ text "DataVersion"
    ∷ text "DeviceTypeId"
    ∷ text "EndpointNumber"
    ∷ text "EntryIndex"
    ∷ text "EventId"
    ∷ text "FabricIndex"
    ∷ text "FieldId"
    ∷ text "GroupId"
    ∷ text "VendorId"
    ∷ text "Interval"
    ∷ []

unfoldable pub kind_of : Text → Kind
kind_of name =
    if name == text "Undefined"
    then undefined
    else if any (λ n. n == name) wide_names
    then wide_id
    else if name == text "Uint8Array"
    then uint8_array
    else if name == text "Map"
    then map_entries
    else if any (λ n. n == name) narrow_names
    then narrow_id
    else unknown

unfoldable pub looks_tagged : Text → Bool
unfolding starts_with ends_with
looks_tagged s = starts_with s tag_prefix && ends_with s (b'}' ∷ [])

module _ {N : Type 0} where
  abbrev pub as_tagged : Value N → Option (Text × Option (Value N))
  as_tagged tagged =
      and_then (Json.get type_key tagged)
        (λ k. and_then (as_str k) (λ kind. some (kind, Json.get value_key tagged)))

  -- No text in a value is longer than this.
  unfoldable mutual
    pub longest : Value N → ℕ
    longest (Value.string s) = length s
    longest (Value.array vs) = longest_item vs
    longest (Value.object fs) = longest_field fs
    longest _ = 0

    pub longest_item : Items N → ℕ
    longest_item Items.nil = 0
    longest_item (Items.cons v vs) = max (longest v) (longest_item vs)

    pub longest_field : Fields N → ℕ
    longest_field Fields.end = 0
    longest_field (Fields.field k v fs) = max (longest v) (longest_field fs)

module _ {N F : Type 0} ⦃num : Numbers N⦄ (fmt : Formats N F) where
  unfoldable pub number_like : Value N → Option Text
  number_like (Value.string s) = some s
  number_like (Value.number n) = some (fmt.number_text n)
  number_like _ = none

  unfoldable pub of_number : N → MjValue F
  of_number n = elim (num.as_u64 n) [
    | some v ↦ big_int (pos v)
    | none ↦ elim (fmt.as_i64 n) [ some v ↦ big_int v | none ↦ number (fmt.as_f64 n) ]
  ]

  pub narrow_value : Text → Option (MjValue F)
  narrow_value digits =
      or_else (and_then (parse_i128 digits) (λ v. some (big_int v)))
        (and_then (fmt.parse_f64 digits) (λ v. some (number v)))

  -- One tagged value. `inner` decodes the document that a `Map` holds.
  unfoldable pub decode_tagged :
      (Text → Option (MjValue F)) → Kind → Option (Value N) → Option (MjValue F)
  unfolding number_like narrow_value
  decode_tagged inner undefined value = some null
  decode_tagged inner wide_id value =
      and_then (and_then value number_like)
        (λ digits. and_then (parse_i128 digits) (λ v. some (big_int v)))
  decode_tagged inner uint8_array value =
      and_then (and_then value as_str) (λ hex. and_then (hex_pairs hex) (λ bs. some (bytes bs)))
  decode_tagged inner map_entries value = and_then (and_then value as_str) inner
  decode_tagged inner narrow_id value = and_then (and_then value number_like) narrow_value
  decode_tagged inner unknown value = none

  -- A string that does not decode stays the text that it is.
  unfoldable pub from_string : (Text → Option (MjValue F)) → Text → MjValue F
  unfolding looks_tagged decode_tagged
  from_string inner s =
      if looks_tagged s
      then elim (and_then (fmt.parse_json s) as_tagged) [
        | none ↦ string s
        | some (kind, value) ↦ elim (decode_tagged inner (kind_of kind) value) [
          | none ↦ string s
          | some v ↦ v
        ]
      ]
      else string s

  unfoldable mutual
    unfolding from_string of_number

    pub convert : (Text → Option (MjValue F)) → Value N → MjValue F
    convert inner Value.null = null
    convert inner (Value.bool b) = bool b
    convert inner (Value.number n) = of_number n
    convert inner (Value.string s) = from_string inner s
    convert inner (Value.array vs) = array (convert_items inner vs)
    convert inner (Value.object fs) = object (convert_fields inner fs)

    pub convert_items : (Text → Option (MjValue F)) → Items N → MjItems F
    convert_items inner Items.nil = nil
    convert_items inner (Items.cons v vs) = cons (convert inner v) (convert_items inner vs)

    pub convert_fields : (Text → Option (MjValue F)) → Fields N → MjFields F
    convert_fields inner Fields.end = end
    convert_fields inner (Fields.field k v fs) = field k (convert inner v) (convert_fields inner fs)

  -- `from_json_str`, in documents that are nested at most so deep. A document inside a text is shorter
  -- than the text, so that the longest text of a value bounds the depth.
  unfoldable pub nested : ℕ → Text → Option (MjValue F)
  nested zero s = none
  nested (suc depth) s = and_then (fmt.parse_json s) (λ v. some (convert (nested depth) v))

  unfoldable pub from_json : Value N → MjValue F
  unfolding nested longest
  from_json v = convert (nested (longest v)) v

  unfoldable pub from_json_str : Text → Option (MjValue F)
  unfolding from_json
  from_json_str s = and_then (fmt.parse_json s) (λ v. some (from_json v))

module _ {F : Type 0} where
  abbrev pub mj_items : MjItems F → List (MjValue F)
  mj_items nil = []
  mj_items (cons v vs) = v ∷ mj_items vs

  -- The typed accessors.
  abbrev pub mj_str : MjValue F → Option Text
  mj_str (string s) = some s
  mj_str _ = none

  abbrev pub mj_bytes : MjValue F → Option (List ℕ)
  mj_bytes (bytes bs) = some bs
  mj_bytes _ = none

  abbrev pub mj_array : MjValue F → Option (List (MjValue F))
  mj_array (array vs) = some (mj_items vs)
  mj_array _ = none

  pub mj_field : Text → MjFields F → Option (MjValue F)
  mj_field k end = none
  mj_field k (field j v fs) = if j == k then some v else mj_field k fs

  pub non_null : MjValue F → Option (MjValue F)
  non_null null = none
  non_null v = some v

  -- Field lookup; a field that is null is absent.
  unfoldable pub mj_get : Text → MjValue F → Option (MjValue F)
  unfolding mj_field non_null
  mj_get k (object fs) = and_then (mj_field k fs) non_null
  mj_get k _ = none

module _ {N F : Type 0} (fmt : Formats N F) where
  unfoldable pub mj_u64 : MjValue F → Option ℕ
  unfolding to_unsigned
  mj_u64 (number x) = fmt.whole_u64 x
  mj_u64 (big_int i) = to_unsigned u64_max i
  mj_u64 (string s) = parse_uint 10 u64_max s
  mj_u64 _ = none
