-- ===== src/Storage/Nodes/Detect.antt =====
-- server/src/storage/nodes.rs: what is read off a node's attributes, a bridge and the version.
use rs_matter_server.Prelude.{
  ℕ, ◌/◌, ◌%◌, ◌^◌, ◌++◌, Bool, false, ◌&&◌, Option, none, some, List, ◌∷◌, ◌==◌, nat_ord, text_ord,
  ltb, leb, any, get_elem?, if◌then◌else◌,
}
use rs_matter_server.Prelude.Text.{Text, text, show, split}
use rs_matter_server.Prelude.Map.{get}
use rs_matter_server.Protocol.Json
use rs_matter_server.Protocol.Json.{Numbers, Value, as_u64, as_array}
use rs_matter_server.Protocol.Model.{AttributesData}

-- The Aggregator device type.
abbrev aggregator_device_type : ℕ
aggregator_device_type = 0x000e

names_list : Option Text → Option Text → Bool
names_list (some cluster) (some attribute) = cluster == text "29" && attribute == text "0"
names_list _ _ = false

-- Whether a path is that of a DeviceTypeList, on whichever endpoint.
unfoldable pub is_device_type_list : Text → Bool
unfolding names_list
is_device_type_list path =
    names_list (get_elem? (split b'/' path) 1) (get_elem? (split b'/' path) 2)

dotted : ℕ → Text
dotted raw =
    show (raw / 2 ^ 24 % 256)
    ++ b'.' ∷ (show (raw / 2 ^ 16 % 256) ++ b'.' ∷ show (raw / 2 ^ 8 % 256))

by_revision : Option ℕ → Option Text
by_revision none = none
by_revision (some revision) =
    if leb revision 16
    then some (text "<1.2.0")
    else if revision == 17
    then some (text "1.2.0")
    else none

by_specification : Option ℕ → Option Text → Option Text
unfolding dotted
by_specification none other = other
by_specification (some raw) other = if ltb 0 raw then some (dotted raw) else other

module _ {N : Type 0} ⦃num : Numbers N⦄ where
  or_else : Option (Value N) → Option (Value N) → Option (Value N)
  or_else none other = other
  or_else (some v) other = some v

  is_aggregator : Option (Value N) → Bool
  is_aggregator none = false
  is_aggregator (some v) = elim (as_u64 v) [ none ↦ false | some n ↦ n == aggregator_device_type ]

  lists_aggregator : Option (List (Value N)) → Bool
  unfolding or_else is_aggregator
  lists_aggregator none = false
  lists_aggregator (some entries) =
      any
        (λ entry.
          is_aggregator (or_else (Json.get (text "deviceType") entry) (Json.get (text "0") entry)))
        entries

  unfoldable pub detect_bridge : AttributesData N → Bool
  unfolding is_device_type_list lists_aggregator
  detect_bridge attributes =
      any (λ e. is_device_type_list e.0 && lists_aggregator (as_array e.1)) attributes

  u64_of : Option (Value N) → Option ℕ
  u64_of none = none
  u64_of (some v) = as_u64 v

  -- SpecificationVersion, where it is above zero, or an estimate from DataModelRevision.
  unfoldable pub detect_matter_version : AttributesData N → Option Text
  unfolding u64_of by_revision by_specification
  detect_matter_version attributes =
      by_specification (u64_of (get (text "0/40/21") attributes))
        (by_revision (u64_of (get (text "0/40/0") attributes)))
