-- ===== src/Storage/Nodes/Persistence/Tests.antt =====
-- The persistence theorems at one store.
use rs_matter_server.Prelude.{ℕ, true, false, none, some, List, [], ◌∷◌, nat_ord, text_ord}
use rs_matter_server.Prelude.Text.{Text, text}
use rs_matter_server.Protocol.Json.{Value}
use rs_matter_server.Protocol.Model.{AttributesData}
use rs_matter_server.Storage.Nodes.{StoredNode, Nodes}
use rs_matter_server.Storage.Nodes.Persistence.{
  File, snapshot, Store, Event, change_soon, change_now, flushed, writer_wakes, writer_idles,
}

abbrev on_off : Text
on_off = text "1/6/0"

abbrev level : Text
level = text "2/8/0"

abbrev held : AttributesData ℕ
held = (on_off, Value.bool false) ∷ (level, Value.number 3) ∷ []

abbrev lamp : StoredNode ℕ
lamp = record {
  node = record {
    node_id = 5;
    date_commissioned = text "2026-01-01";
    last_interview = text "2026-01-02";
    interview_version = 1;
    available = true;
    is_bridge = false;
    attributes = held;
    attribute_subscriptions = [];
    matter_version = none;
  };
  ip_addresses = [];
  device_fabric_index = none;
}

abbrev nodes : Nodes ℕ
nodes = (5, lamp) ∷ []

-- A store with its file, as it was loaded.
abbrev store : Store ℕ
store = record {
  nodes = nodes;
  path = true;
  dirty = false;
  running = false;
  last_write = some 0;
  writes = 0;
}

abbrev file : File ℕ
file = snapshot (lamp ∷ [])

abbrev events : List (Event ℕ)
events =
    change_soon (λ n. [])
    ∷ writer_wakes true 9
    ∷ change_now (λ n. nodes) true 10
    ∷ writer_idles
    ∷ flushed true 12
    ∷ []
