-- ===== src/Monitor.antt =====
-- server/src/monitor.rs: keeping each node under a subscription, and announcing what it reports. What
-- a device answers is an argument, as is what serde makes of a node on the wire.
pub mod Publishing
pub mod Availability
mod Tests
use rs_matter_server.Prelude.{
  ℕ, ◌*◌, ◌-◌, Bool, true, false, not, ◌&&◌, ◌||◌, Option, none, some, List, [], ◌∷◌, ◌++◌, ◌==◌,
  nat_ord, map, length, leb, if◌then◌else◌,
}
use rs_matter_server.Prelude.Text.{Text}
use rs_matter_server.Prelude.Map.{Map, get, insert}
use rs_matter_server.Protocol.Json.{Numbers, Value}
use rs_matter_server.Protocol.Model.{MatterNodeData, AttributesData, is_test_node}
use rs_matter_server.Protocol.Error.{ErrorCode, node_not_resolving, node_not_ready}
use rs_matter_server.Protocol.Events.{
  Event, endpoint_added, endpoint_removed, attribute_updated, node_updated,
}
use rs_matter_server.Storage.Nodes.{
  StoredNode, Nodes, Coverage, complete, partial, InterviewDiff, apply_interview, merge_attributes,
  set_available, awaiting_first_interview,
}
use rs_matter_server.Matter.Subscriptions.{Registry, established, is_live}

-- How the store's file is to be written.
pub data Save : Type 0 where
  now soon : Save

-- What the monitor shares with the rest of the server, and what it made of it: the events published
-- and the writes asked for, in order.
pub record State (N : Type 0) : Type 0 where
  pub nodes : Nodes N
  pub subscriptions : Registry
  pub events : List (Event N)
  pub saves : List Save

-- What became of a subscription: its id, its longest interval and the priming report, or an error.
pub data Subscribed (N : Type 0) : Type 0 where
  subscribed : ℕ → ℕ → AttributesData N → Subscribed N
  refused : ErrorCode → Subscribed N

unfoldable pub unreachable : ErrorCode → Bool
unreachable node_not_resolving = true
unreachable node_not_ready = true
unreachable _ = false

is_empty : {A : Type 0} → List A → Bool
is_empty [] = true
is_empty (x ∷ xs) = false

pub nothing_changed : {N : Type 0} → InterviewDiff N → Bool
unfolding is_empty
nothing_changed diff =
    is_empty diff.changed_attributes
    && is_empty diff.endpoints_added
    && is_empty diff.endpoints_removed

module _ {N : Type 0} ⦃num : Numbers N⦄ (to_value : MatterNodeData N → Value N) where
  abbrev publish : State N → List (Event N) → State N
  publish s events = record s { events = s.events ++ events }

  announced : ℕ → InterviewDiff N → List (Event N)
  announced node_id diff =
      map (endpoint_added node_id) diff.endpoints_added
      ++ map (endpoint_removed node_id) diff.endpoints_removed
      ++ map (λ e. attribute_updated node_id e.0 e.1) diff.changed_attributes
      ++ (node_updated (to_value diff.node) ∷ [])

  unfoldable pub publish_diff : ℕ → State N → Nodes N × Option (InterviewDiff N) → State N
  unfolding nothing_changed announced
  publish_diff node_id s (nodes, none) = s
  publish_diff node_id s (nodes, some diff) =
      if nothing_changed diff then record s { nodes = nodes } else record s {
        nodes = nodes;
        events = s.events ++ announced node_id diff;
        saves = s.saves ++ (soon ∷ []);
      }

  unfoldable pub publish_changes : ℕ → AttributesData N → Coverage → State N → State N
  unfolding publish_diff
  publish_changes node_id attributes coverage s =
      publish_diff node_id s (merge_attributes s.nodes node_id attributes coverage)

  publish_first : State N → Nodes N × Option (InterviewDiff N) → State N
  publish_first s (nodes, none) = s
  publish_first s (nodes, some diff) = record s {
    nodes = nodes;
    events = s.events ++ (node_updated (to_value diff.node) ∷ []);
    saves = s.saves ++ (now ∷ []);
  }

  unfoldable pub publish_first_interview : ℕ → AttributesData N → Text → State N → State N
  unfolding publish_first
  publish_first_interview node_id attributes at s =
      publish_first s (apply_interview s.nodes node_id attributes at)

  mark_found : State N → Nodes N × Option (MatterNodeData N × Bool) → State N
  mark_found s (nodes, none) = s
  mark_found s (nodes, some (node, changed)) =
      if changed
      then record s {
        nodes = nodes;
        events = s.events ++ (node_updated (to_value node) ∷ []);
        saves = s.saves ++ (soon ∷ []);
      }
      else record s { nodes = nodes }

  unfoldable pub mark_available : ℕ → Bool → State N → State N
  unfolding mark_found
  mark_available node_id available s = mark_found s (set_available s.nodes node_id available)

  -- The first read of a node is an interview, any other one a change.
  publish_read : ℕ → AttributesData N → Text → Bool → State N → State N
  publish_read node_id attributes at first_read s =
      if first_read
      then publish_first_interview node_id attributes at s
      else publish_changes node_id attributes complete s

  polled : ℕ → Text → Bool → Option (AttributesData N) → State N → State N
  unfolding publish_read
  polled node_id at first_read none s = mark_available node_id false s
  polled node_id at first_read (some []) s = s
  polled node_id at first_read (some (a ∷ attributes)) s =
      mark_available node_id true (publish_read node_id (a ∷ attributes) at first_read s)

  -- `poll` is what reading the node answers.
  unfoldable pub poll_node : ℕ → Text → Option (AttributesData N) → State N → State N
  unfolding polled
  poll_node node_id at poll s = polled node_id at (awaiting_first_interview s.nodes node_id) poll s

  primed : ℕ → AttributesData N → Text → Bool → State N → State N
  unfolding publish_read
  primed node_id [] at first_read s = s
  primed node_id (a ∷ attributes) at first_read s =
      publish_read node_id (a ∷ attributes) at first_read s

  maintained : ℕ → ℕ → Text → Subscribed N → Option (AttributesData N) → Bool → State N → State N
  unfolding primed
  maintained node_id at_ms at (subscribed id max_interval attributes) poll first_read s =
      mark_available node_id true (
        primed node_id attributes at first_read (record s {
          subscriptions = established s.subscriptions node_id id (max_interval * 1000) at_ms;
        }))
  maintained node_id at_ms at (refused code) poll first_read s =
      if unreachable code then mark_available node_id false s else poll_node node_id at poll s

  -- `answer` is what subscribing answers, `poll` what reading answers where it is asked.
  unfoldable pub maintain_node :
      ℕ → ℕ → Text → Subscribed N → Option (AttributesData N) → State N → State N
  unfolding maintained
  maintain_node node_id at_ms at answer poll s =
      maintained node_id at_ms at answer poll (awaiting_first_interview s.nodes node_id) s
