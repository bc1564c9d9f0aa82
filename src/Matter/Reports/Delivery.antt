-- ===== src/Matter/Reports/Delivery.antt =====
-- server/src/matter/reports.rs: whom a report changes, and the times of the events it brings.
use rs_matter_server.Prelude.{
  ℕ, ◌+◌, ◌≡◌, ◌≢◌, ==_iff, refl, ap, ◌∙◌, Option, none, some, List, [], ◌∷◌, ◌++◌, arith, nat_ord,
  Bool-cases, Option-cases, inl, inr,
}
use rs_matter_server.Prelude.Map.{get, get-insert}
use rs_matter_server.Protocol.Json.{Numbers, Value}
use rs_matter_server.Protocol.Model.{MatterNodeData, AttributesData}
use rs_matter_server.Storage.Nodes.{
  Nodes, InterviewDiff, Coverage, partial, merge_attributes, diff_found,
}
use rs_matter_server.Matter.Subscriptions.{Registry, note_report, touch, Verdict, accept, disown}
use rs_matter_server.Monitor.{State, publish_changes, publish_diff, nothing_changed}
use rs_matter_server.Matter.Reports.{
  EventData, EventEntry, event_data, delta_epoch_timestamp, MatterNodeEvent, Context, Report,
  handle_report, node_events, deliver, judged, taken, alive, apply_attributes,
}

module _ {N : Type 0} where
  -- Events that give their times as the distance from the one before.
  abbrev pub delta_entries : List (ℕ × EventData N) → List (EventEntry N)
  delta_entries [] = []
  delta_entries ((gap, e) ∷ es) =
      event_data (record e { timestamp = delta_epoch_timestamp gap }) ∷ delta_entries es

  abbrev pub stamp : ℕ → Option (Value N) → List ℕ
  stamp t none = []
  stamp t (some value) = t ∷ []

  -- The times of those that can be read.
  abbrev pub stamps : ℕ → List (ℕ × EventData N) → List ℕ
  stamps t [] = []
  stamps t ((gap, e) ∷ es) = stamp (t + gap) e.data_json ++ stamps (t + gap) es

  abbrev pub last_time : ℕ → List (ℕ × EventData N) → ℕ
  last_time t [] = t
  last_time t ((gap, e) ∷ es) = last_time (t + gap) es

touch-other :
    (r : Registry) (id other now : ℕ) → other ≢ id → get other (note_report r id now) ≡ get other r
unfolding note_report touch
touch-other r id other now n = elim (Option-cases (get id r)) [
  | inl e ↦ rw e refl
  | inr (s, e) ↦ rw (e, get-insert) ground (arith, ==_iff id other)
]

module _ {N : Type 0} ⦃num : Numbers N⦄ where
  merge-other :
      (nodes : Nodes N) (id other : ℕ) (attributes : AttributesData N) (coverage : Coverage)
      → other ≢ id
      → get other (merge_attributes nodes id attributes coverage).0 ≡ get other nodes
  unfolding merge_attributes diff_found
  merge-other nodes id other attributes coverage n = elim (Option-cases (get id nodes)) [
    | inl e ↦ rw e refl
    | inr (s, e) ↦ rw (e, get-insert) ground (arith, ==_iff id other)
  ]

  -- What is held of one node, in either store.
  abbrev pub Same : ℕ → State N → State N → Type 0
  Same other after before =
      (get other after.nodes ≡ get other before.nodes)
      × (get other after.subscriptions ≡ get other before.subscriptions)

module _ {N : Type 0} ⦃num : Numbers N⦄ (to_value : MatterNodeData N → Value N)
    (event_value : MatterNodeEvent N → Value N) where
  publish_diff-Same :
      (id other : ℕ) (s : State N) (r : Nodes N × Option (InterviewDiff N))
      → get other r.0 ≡ get other s.nodes
      → Same other (publish_diff to_value id s r) s
  unfolding publish_diff
  publish_diff-Same id other s (nodes, none) h = (refl, refl)
  publish_diff-Same id other s (nodes, some diff) h = elim (Bool-cases (nothing_changed diff)) [
    | inl e ↦ rw e (h, refl)
    | inr e ↦ rw e (h, refl)
  ]

  apply-Same :
      (id other : ℕ) (attributes : AttributesData N) (s : State N)
      → other ≢ id
      → Same other (apply_attributes to_value event_value id attributes s) s
  unfolding apply_attributes publish_changes
  apply-Same id other [] s n = (refl, refl)
  apply-Same id other (a ∷ attributes) s n =
      publish_diff-Same id other s _ (merge-other s.nodes id other (a ∷ attributes) partial n)

  deliver-nodes :
      (es : List (MatterNodeEvent N)) (c : Context N)
      → ((deliver to_value event_value es c).state.nodes ≡ c.state.nodes)
        × ((deliver to_value event_value es c).state.subscriptions ≡ c.state.subscriptions)
  unfolding deliver
  deliver-nodes [] c = (refl, refl)
  deliver-nodes (e ∷ es) c = deliver-nodes es _

  taken-Same :
      (id other : ℕ) (report : Report N) (attributes : Option (AttributesData N)) (c : Context N)
      → other ≢ id
      → Same other (taken to_value event_value id report attributes c).1.state c.state
  unfolding taken
  taken-Same id other report none c n = (refl, refl)
  taken-Same id other report (some attributes) c n =
      let (p, q) =
        deliver-nodes (node_events id report.event_reports)
          (record c { state = apply_attributes to_value event_value id attributes c.state }) in
      let (a, b) = apply-Same id other attributes c.state n in
      (ap (get other) p ∙ a, ap (get other) q ∙ b)

  judged-Same :
      (id other now : ℕ) (report : Report N) (c : Context N) (v : Verdict)
      → other ≢ id
      → Same other (judged to_value event_value id now report c v).1.state c.state
  unfolding judged alive
  judged-Same id other now report c disown n = (refl, refl)
  judged-Same id other now report c accept n =
      let (a, b) = taken-Same id other report report.attributes _ n in
      (a, b ∙ touch-other c.state.subscriptions id other now n)

  -- A report of one node never changes what is held of another one: neither its attributes and its
  -- availability nor its subscription, whatever the report contains and whether it is taken or not.
  pub handle_report_changes_sender_only :
      (node_id other now : ℕ) (report : Report N) (c : Context N)
      → other ≢ node_id
      → Same other (handle_report to_value event_value node_id now report c).1.state c.state
  unfolding handle_report
  handle_report_changes_sender_only node_id other now report c n =
      judged-Same node_id other now report c _ n
