-- ===== src/Monitor/Availability.antt =====
-- server/src/monitor.rs: what is known of a node's reachability after it was looked after.
use rs_matter_server.Prelude.{
  ℕ, ◌≡◌, Bool, true, false, not, Option, none, some, [], ◌∷◌, nat_ord, text_ord, if◌then◌else◌,
}
use rs_matter_server.Prelude.Text.{Text}
use rs_matter_server.Prelude.Map.{get}
use rs_matter_server.Protocol.Json.{Numbers, Value}
use rs_matter_server.Protocol.Model.{MatterNodeData, AttributesData}
use rs_matter_server.Storage.Nodes.{StoredNode}
use rs_matter_server.Monitor.{State, Subscribed, subscribed, refused, unreachable}

module _ {N : Type 0} ⦃num : Numbers N⦄ (to_value : MatterNodeData N → Value N) where
  -- The node is in the store, and this is what is known of its reachability.
  abbrev pub IsKnown : ℕ → Bool → State N → Type 0
  IsKnown node_id available s =
      (t : StoredNode N) × (get node_id s.nodes ≡ some t) × (t.node.available ≡ available)

  -- What a pass learns of a node: that it answered, that it did not, or, where it refused to report
  -- and reading it gave nothing at all, nothing new.
  abbrev pub reached : Subscribed N → Option (AttributesData N) → Bool → Bool
  reached (subscribed id max_interval attributes) poll before = true
  reached (refused code) none before = false
  reached (refused code) (some []) before = if unreachable code then false else before
  reached (refused code) (some (a ∷ attributes)) before = not (unreachable code)
