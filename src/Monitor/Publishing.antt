-- ===== src/Monitor/Publishing.antt =====
-- server/src/monitor.rs: what a read or a report publishes.
use rs_matter_server.Prelude.{
  ℕ, ◌≡◌, inl, inr, refl, ◌∙◌, true, false, some, List, [], ◌∷◌, ◌++◌, ◌==◌, ==_iff, nat_ord,
  text_ord, map, if_true, if_false, Has, Has-append_left, Has-append_right, Has-map, Bool-cases,
}
use rs_matter_server.Prelude.Text.{Text}
use rs_matter_server.Prelude.Map.{Map, get, IsSorted}
use rs_matter_server.Protocol.Json.{Numbers, Value}
use rs_matter_server.Protocol.Model.{MatterNodeData, AttributesData, endpoints}
use rs_matter_server.Protocol.Events.{
  endpoint_added, endpoint_removed, attribute_updated, node_updated,
}
use rs_matter_server.Storage.Nodes.{
  StoredNode, Nodes, Coverage, complete, InterviewDiff, is_value, changed, difference, merged,
}
use rs_matter_server.Storage.Nodes.Diffs.{get-changed, merge_found}
use rs_matter_server.Monitor.{
  State, soon, publish_changes, publish_diff, nothing_changed, announced, is_empty,
}

-- An entry that is found is one of the entries.
same_entry : {V : Type 0} {k p : Text} {w v : V} → k ≡ p → w ≡ v → ◌≡◌ {A = Text × V} (k, w) (p, v)
same_entry a b = cc

some_inj : {V : Type 0} {w v : V} → some w ≡ some v → w ≡ v
some_inj a = cc

Has-get : {V : Type 0} (p : Text) (v : V) (m : Map Text V) → get p m ≡ some v → Has (p, v) m
unfolding get
Has-get p v [] h = cc
Has-get p v ((k, w) ∷ m) h = elim (Bool-cases (k == p)) [
  | inl e ↦ inl (same_entry ((==_iff k p).0 e) (some_inj (rw (get, e) at h)))
  | inr e ↦ inr (Has-get p v m (rw (get, e) at h))
]

something : {A : Type 0} (x : A) (xs : List A) → Has x xs → is_empty xs ≡ false
unfolding is_empty
something x [] h = elim h [ ]
something x (y ∷ xs) h = refl

something_changed :
    {N : Type 0} (x : Text × Value N) (d : InterviewDiff N)
    → Has x d.changed_attributes
    → nothing_changed d ≡ false
unfolding nothing_changed
something_changed x d there = rw (something x d.changed_attributes there) refl

nothing_changes :
    {N : Type 0} (d : InterviewDiff N)
    → d.changed_attributes ≡ []
    → d.endpoints_added ≡ []
    → d.endpoints_removed ≡ []
    → nothing_changed d ≡ true
unfolding nothing_changed is_empty
nothing_changes d a b c = rw (nothing_changed, a, b, c) refl

module _ {N : Type 0} ⦃num : Numbers N⦄ (to_value : MatterNodeData N → Value N) where
  -- A change that was announced is written soon, and ends in the whole node.
  pub record IsAnnounced (s : State N) (node_id : ℕ) (p : Text) (v : Value N) (after : State N)
      : Type 0 where
    pub value : Has (attribute_updated node_id p v) after.events
    pub write : after.saves ≡ s.saves ++ (soon ∷ [])

  publish_diff_announces :
      (s : State N) (node_id : ℕ) (p : Text) (v : Value N) (nodes : Nodes N) (d : InterviewDiff N)
      → Has (p, v) d.changed_attributes
      → IsAnnounced s node_id p v (publish_diff to_value node_id s (nodes, some d))
  unfolding publish_diff announced
  publish_diff_announces s node_id p v nodes d there =
      if_false (IsAnnounced s node_id p v) (nothing_changed d) _ _
        (something_changed (p, v) d there)
        (record {
          value = Has-append_right _ s.events _ (
              Has-append_left _ _ (node_updated (to_value d.node) ∷ []) (
                Has-append_right _
                  (map (endpoint_added node_id) d.endpoints_added
                    ++ map (endpoint_removed node_id) d.endpoints_removed)
                  _
                  (Has-map (λ e. attribute_updated node_id e.0 e.1) (p, v) d.changed_attributes
                    there)));
          write = refl;
        })

  -- Each value that a read or a report brings and that is not the one held is announced to the
  -- clients, and the store is written soon, whether the values are all the node has or some.
  pub publish_changes_announces :
      (s : State N) (node_id : ℕ) (t : StoredNode N) (attributes : AttributesData N)
      (coverage : Coverage) (p : Text) (v : Value N)
      → get node_id s.nodes ≡ some t
      → IsSorted attributes
      → get p attributes ≡ some v
      → is_value (get p t.node.attributes) v ≡ false
      → IsAnnounced s node_id p v (publish_changes to_value node_id attributes coverage s)
  unfolding publish_changes
  publish_changes_announces s node_id t attributes coverage p v found sorted given new =
      let old : AttributesData N = t.node.attributes in
      let there : Has (p, v) (changed old attributes) =
        Has-get p v (changed old attributes)
          (get-changed old attributes p sorted ∙ rw (given, new) refl) in
      let (after, d, m) = merge_found s.nodes node_id t attributes coverage found in
      rw m.result (publish_diff_announces s node_id p v after d (rw m.reported there))

  -- No event and no write, but the node in the store has the attributes.
  abbrev pub IsSilent : State N → ℕ → AttributesData N → State N → Type 0
  IsSilent s node_id attributes after =
      (after.events ≡ s.events)
      × (after.saves ≡ s.saves)
      × (u : StoredNode N) × (get node_id after.nodes ≡ some u)
      × (u.node.attributes ≡ attributes)

  -- A complete read that changes no value and no endpoint, but in which attributes are missing, takes
  -- them out of the store without a word: nothing is published, and no write is asked for.
  pub removal-IsSilent :
      (s : State N) (node_id : ℕ) (t : StoredNode N) (attributes : AttributesData N)
      → get node_id s.nodes ≡ some t
      → changed t.node.attributes attributes ≡ []
      → difference (endpoints attributes) (endpoints t.node.attributes) ≡ []
      → difference (endpoints t.node.attributes) (endpoints attributes) ≡ []
      → IsSilent s node_id attributes (publish_changes to_value node_id attributes complete s)
  unfolding publish_changes publish_diff merged
  removal-IsSilent s node_id t attributes found same added gone =
      let (after, d, m) = merge_found s.nodes node_id t attributes complete found in
      rw m.result (
        if_true (IsSilent s node_id attributes) (nothing_changed d) _ _
          (nothing_changes d (m.reported ∙ same) (m.added ∙ added) (m.gone ∙ gone))
          (refl, refl, record t { node = d.node }, m.stored, m.held))
