-- ===== src/Protocol/Events.antt =====
-- server/src/protocol/events.rs: events by class, and what a connection has opted into. What serde
-- makes of a model on the wire is an argument of the constructor.
pub mod OptIn
mod Tests
use rs_matter_server.Prelude.{
  ℕ, Bool, true, false, ◌||◌, Option, none, some, List, [], ◌∷◌, String, ◌==◌, text_ord,
  if◌then◌else◌, unwrap_or,
}
use rs_matter_server.Prelude.Text.{Text, text}
use rs_matter_server.Protocol.Json.{
  Numbers, Value, Items, Fields, nil, cons, end, field, get, as_str,
}

pub data EventClass : Type 0 where
  always thread_diagnostics network_topology web_rtc : EventClass

pub record Event (N : Type 0) : Type 0 where
  pub class : EventClass
  pub payload : Value N

module _ {N : Type 0} where
  unfoldable pub new : EventClass → String → Value N → Event N
  new class name value = record {
    class = class;
    payload =
        Value.object
          (field (text "data") value (field (text "event") (Value.string (text name)) end));
  }

  str_of : Option (Value N) → Option Text
  str_of none = none
  str_of (some v) = as_str v

  -- `name` answers the empty text where the payload has no event name.
  unfoldable pub name : Event N → Text
  unfolding str_of
  name e = unwrap_or (str_of (get (text "event") e.payload)) []

  unfoldable pub node_added : Value N → Event N
  unfolding new
  node_added node = new always "node_added" node

  unfoldable pub node_updated : Value N → Event N
  unfolding new
  node_updated node = new always "node_updated" node

  unfoldable pub node_event : Value N → Event N
  unfolding new
  node_event event = new always "node_event" event

  unfoldable pub server_info_updated : Value N → Event N
  unfolding new
  server_info_updated info = new always "server_info_updated" info

  unfoldable pub thread_diagnostics_updated : Value N → Event N
  unfolding new
  thread_diagnostics_updated batch = new thread_diagnostics "thread_diagnostics_updated" batch

  unfoldable pub network_topology_updated : Value N → Event N
  unfolding new
  network_topology_updated topology = new network_topology "network_topology_updated" topology

  unfoldable pub webrtc_callback : Value N → Event N
  unfolding new
  webrtc_callback body = new web_rtc "webrtc_callback" body

module _ {N : Type 0} ⦃num : Numbers N⦄ where
  unfoldable pub node_removed : ℕ → Event N
  unfolding new
  node_removed node_id = new always "node_removed" (Value.number (num.from_u64 node_id))

  -- `[node_id, path, value]`.
  unfoldable pub attribute_updated : ℕ → Text → Value N → Event N
  unfolding new
  attribute_updated node_id path value = new always "attribute_updated" (
      Value.array
        (cons (Value.number (num.from_u64 node_id)) (cons (Value.string path) (cons value nil))))

  endpoint_fields : ℕ → ℕ → Value N
  endpoint_fields node_id endpoint_id = Value.object (
      field (text "endpoint_id") (Value.number (num.from_u64 endpoint_id))
        (field (text "node_id") (Value.number (num.from_u64 node_id)) end))

  unfoldable pub endpoint_added : ℕ → ℕ → Event N
  unfolding new endpoint_fields
  endpoint_added node_id endpoint_id =
      new always "endpoint_added" (endpoint_fields node_id endpoint_id)

  unfoldable pub endpoint_removed : ℕ → ℕ → Event N
  unfolding new endpoint_fields
  endpoint_removed node_id endpoint_id =
      new always "endpoint_removed" (endpoint_fields node_id endpoint_id)

-- What a connection has opted into; the flags are never taken back.
pub record EventSubscriptions : Type 0 where
  pub listening : Bool
  pub thread_diagnostics : Bool
  pub network_topology : Bool
  pub webrtc : Bool

abbrev pub none_yet : EventSubscriptions
none_yet = record {
  listening = false;
  thread_diagnostics = false;
  network_topology = false;
  webrtc = false;
}

unfoldable pub observe_command : EventSubscriptions → Text → EventSubscriptions
observe_command s command =
    if command == text "start_listening"
    then record s { listening = true }
    else if command == text "get_thread_diagnostics" || command == text "get_thread_border_routers"
    then record s { thread_diagnostics = true }
    else if command == text "get_network_topology"
    then record s { network_topology = true }
    else if command == text "send_webrtc_provider_command"
    then record s { webrtc = true }
    else s

class_accepted : EventSubscriptions → EventClass → Bool
class_accepted s always = true
class_accepted s thread_diagnostics = s.thread_diagnostics
class_accepted s network_topology = s.network_topology
class_accepted s web_rtc = s.webrtc

unfoldable pub accepts : {N : Type 0} → EventSubscriptions → Event N → Bool
unfolding class_accepted
accepts s event = if s.listening then class_accepted s event.class else false
