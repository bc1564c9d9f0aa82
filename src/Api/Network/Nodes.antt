-- ===== src/Api/Network/Nodes.antt =====
-- server/src/api/network.rs: the nodes of the graph, and what they report of themselves.
use rs_matter_server.Prelude.{
  and_then, ℕ, ◌^◌, not, ◌||◌, Option, none, some, List, [], ◌∷◌, ◌++◌, ◌==◌, nat_ord, text_ord,
  all, find, length, if◌then◌else◌, is_some, map,
}
use rs_matter_server.Prelude.Text.{Text, text, show, eq_ignore_ascii_case}
use rs_matter_server.Prelude.Text.Hex.{to_hex_upper, hex16}
use rs_matter_server.Prelude.Text.Affix.{join}
use rs_matter_server.Prelude.Map.{get}
use rs_matter_server.Protocol.Json.{Numbers, Value, as_str, as_u64}
use rs_matter_server.Protocol.Model.{MatterNodeData, vendor_name, product_name}
use rs_matter_server.Storage.Config.Registrations.{Base64}
use rs_matter_server.Api.Network.{NetworkTopologyNode, blank, routing_role, add_node, low}

module _ ⦃base64 : Base64⦄ where
  unfoldable pub decode_ext_address : Text → Option Text
  decode_ext_address encoded =
      and_then (base64.decode encoded)
        (λ bytes. if length bytes == 0 then none else some (to_hex_upper bytes))

  unfoldable pub bssid_of : Text → Option Text
  bssid_of encoded = and_then (base64.decode encoded) (λ bytes.
      if not (length bytes == 6) || all (λ b. b == 0) bytes
      then none
      else some (join (text ":") (map (λ b. to_hex_upper (b ∷ [])) bytes)))

module _ {N : Type 0} where
  abbrev pub thread_attribute : MatterNodeData N → ℕ → Option (Value N)
  thread_attribute node attribute = get (text "0/53/" ++ show attribute) node.attributes

  abbrev pub wifi_attribute : MatterNodeData N → ℕ → Option (Value N)
  wifi_attribute node attribute = get (text "0/54/" ++ show attribute) node.attributes

  unfoldable pub thread_string : ⦃base64 : Base64⦄ → MatterNodeData N → ℕ → Option Text
  unfolding decode_ext_address
  thread_string node attribute =
      and_then (and_then (thread_attribute node attribute) as_str) decode_ext_address

  unfoldable pub format_bssid : ⦃base64 : Base64⦄ → Value N → Option Text
  unfolding bssid_of
  format_bssid value = and_then (as_str value) bssid_of

  -- The Thread nodes of the store by their extended addresses.
  unfoldable pub index_addresses : ⦃base64 : Base64⦄ → List (MatterNodeData N) → List (Text × Text)
  unfolding thread_string
  index_addresses [] = []
  index_addresses (node ∷ nodes) = elim (thread_string node 63) [
    | none ↦ index_addresses nodes
    | some ext ↦ (ext, show node.node_id) ∷ index_addresses nodes
  ]

module _ {N : Type 0} ⦃num : Numbers N⦄ where
  abbrev pub number_of : Option (Value N) → Option ℕ
  number_of o = and_then o as_u64

  abbrev pub pan_id_of : MatterNodeData N → Option Text
  pan_id_of node = and_then (number_of (thread_attribute node 4)) (λ v. some (hex16 v))

  abbrev pub network_name_of : MatterNodeData N → Option Text
  network_name_of node = and_then (thread_attribute node 2) as_str

  unfoldable pub matter_node :
      ⦃base64 : Base64⦄ → MatterNodeData N → Option Text → NetworkTopologyNode
  unfolding thread_string routing_role
  matter_node node bssid =
      let thread_role = number_of (thread_attribute node 1) in
      let is_thread = is_some thread_role || is_some (thread_attribute node 63) in
      record (blank (show node.node_id) (text "matter") (
        if is_thread
        then text "thread"
        else if is_some bssid
        then text "wifi"
        else text "unknown")) {
          node_id = some node.node_id;
          role =
              if is_thread
              then and_then thread_role (λ r. some (routing_role r))
              else if is_some bssid
              then some (text "station")
              else none;
          available = some node.available;
          is_bridge = some node.is_bridge;
          ext_address = thread_string node 63;
          rloc16 = low (2 ^ 16) (number_of (thread_attribute node 64));
          ext_pan_id = pan_id_of node;
          network_name = network_name_of node;
          bssid = bssid;
          vendor_name = vendor_name node;
          model_name = product_name node;
        }

-- The graph's node for an address, invented where it is not of this fabric; with the graph's nodes.
unfoldable pub resolve_target :
    {N : Type 0} ⦃num : Numbers N⦄
    → Text
    → List (Text × Text)
    → List NetworkTopologyNode
    → Option ℕ
    → MatterNodeData N
    → Text × List NetworkTopologyNode
unfolding add_node
resolve_target ext_address by_ext_address nodes rloc16 observer =
    elim (find (λ e. eq_ignore_ascii_case e.0 ext_address) by_ext_address) [
      | some e ↦ (e.1, nodes)
      | none ↦ (
        text "unknown_" ++ ext_address,
        add_node
            (record (blank (text "unknown_" ++ ext_address) (text "thread_unknown")
              (text "thread")) {
                ext_address = some ext_address;
                rloc16 = rloc16;
                ext_pan_id = pan_id_of observer;
                network_name = network_name_of observer;
              })
            nodes,
      )
    ]
