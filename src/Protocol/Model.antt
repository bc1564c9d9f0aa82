-- ===== src/Protocol/Model.antt =====
-- server/src/protocol/model.rs: a commissioned node as the client sees it.
pub mod Endpoints
use rs_matter_server.Prelude.{
  ℕ, ◌-◌, ◌^◌, ◌*◌, ◌++◌, Bool, true, false, Option, none, some, List, [], ◌∷◌, ◌==◌, nat_ord,
  text_ord, leb, if◌then◌else◌,
}
use rs_matter_server.Prelude.Text.{Text, text, show, split, parse_uint}
use rs_matter_server.Prelude.Map.{Map, get, keys}
use rs_matter_server.Protocol.Json.{Value, as_str}
use rs_matter_server.Protocol.Message.{u16_max}

-- Ids from here on are those of imported test nodes.
abbrev pub test_node_start : ℕ
test_node_start = 0xffff_fffe_0000_0000

abbrev pub AttributesData : Type 0 → Type 0
AttributesData N = Map Text (Value N)

pub record MatterNodeData (N : Type 0) : Type 0 where
  pub node_id : ℕ
  pub date_commissioned : Text
  pub last_interview : Text
  pub interview_version : ℕ
  pub available : Bool
  pub is_bridge : Bool
  pub attributes : AttributesData N
  pub attribute_subscriptions : List (Value N)
  pub matter_version : Option Text

unfoldable pub insert_sorted : ℕ → List ℕ → List ℕ
insert_sorted n [] = n ∷ []
insert_sorted n (m ∷ ms) = let rest = insert_sorted n ms in if leb n m then n ∷ m ∷ ms else m ∷ rest

-- `sort_unstable`: on numbers every sort has one result.
unfoldable pub sort : List ℕ → List ℕ
unfolding insert_sorted
sort [] = []
sort (n ∷ ns) = insert_sorted n (sort ns)

-- `dedup` drops what equals its predecessor.
dedup_after : ℕ → List ℕ → List ℕ
dedup_after n [] = []
dedup_after n (m ∷ ms) = let rest = dedup_after m ms in if n == m then rest else m ∷ rest

unfoldable pub dedup : List ℕ → List ℕ
unfolding dedup_after
dedup [] = []
dedup (n ∷ ns) = n ∷ dedup_after n ns

first_part : List Text → Option ℕ
first_part [] = none
first_part (part ∷ parts) = parse_uint 10 u16_max part

-- The endpoint that an attribute's path names.
unfoldable pub endpoint_of : Text → Option ℕ
unfolding first_part
endpoint_of path = first_part (split b'/' path)

cons_some : Option ℕ → List ℕ → List ℕ
cons_some none ns = ns
cons_some (some n) ns = n ∷ ns

parsed_endpoints : List Text → List ℕ
unfolding cons_some
parsed_endpoints [] = []
parsed_endpoints (path ∷ paths) = cons_some (endpoint_of path) (parsed_endpoints paths)

module _ {N : Type 0} where
  unfoldable pub new : ℕ → Text → MatterNodeData N
  new node_id commissioned_at = record {
    node_id = node_id;
    date_commissioned = commissioned_at;
    last_interview = commissioned_at;
    interview_version = 0;
    available = true;
    is_bridge = false;
    attributes = [];
    attribute_subscriptions = [];
    matter_version = none;
  }

  unfoldable pub is_test_node : MatterNodeData N → Bool
  is_test_node node = leb test_node_start node.node_id

  string_of : Option (Value N) → Option Text
  string_of none = none
  string_of (some v) = as_str v

  -- A text of the BasicInformation cluster on endpoint 0.
  unfoldable pub basic_info_string : MatterNodeData N → ℕ → Option Text
  unfolding string_of
  basic_info_string node attribute =
      string_of (get (text "0/40/" ++ show attribute) node.attributes)

  unfoldable pub vendor_name : MatterNodeData N → Option Text
  unfolding basic_info_string
  vendor_name node = basic_info_string node 1

  unfoldable pub product_name : MatterNodeData N → Option Text
  unfolding basic_info_string
  product_name node = basic_info_string node 3

  -- `MatterNodeData::endpoints`, over the attributes.
  unfoldable pub endpoints : AttributesData N → List ℕ
  unfolding parsed_endpoints sort dedup
  endpoints attributes = dedup (sort (parsed_endpoints (keys attributes)))
