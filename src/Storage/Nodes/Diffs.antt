-- ===== src/Storage/Nodes/Diffs.antt =====
-- server/src/storage/nodes.rs: what merging attribute values changes, and what it reports.
use rs_matter_server.Prelude.{
  ℕ, ◌+◌, ◌%◌, ◌^◌, ◌≡◌, refl, ◌∙◌, true, false, not, ◌&&◌, none, some, List, [], ◌∷◌, ◌==◌,
  ==-refl, nat_ord, text_ord, any, is_some, arith, if◌then◌else◌,
}
use rs_matter_server.Prelude.Text.{Text}
use rs_matter_server.Prelude.Map.{
  get, insert, extend, keys, contains_key, IsSorted, get-insert_self, get-insert,
}
use rs_matter_server.Prelude.Map.Bulk.{get-keep, get-extend, any-keys-extend, any-keys, any-keep}
use rs_matter_server.Protocol.Json.{Numbers, Value, value_eq_refl}
use rs_matter_server.Protocol.Model.{MatterNodeData, AttributesData, endpoints, endpoint_of}
use rs_matter_server.Protocol.Model.Endpoints.{contains, names, contains-endpoints}
use rs_matter_server.Storage.Nodes.{
  StoredNode, Nodes, Coverage, partial, InterviewDiff, difference, is_value, changed, removed,
  apply_interview, merge_attributes, interviewed, with_attributes, diff_of, diff_found, merged,
  removals, set_attribute,
}

-- A difference has what the first list has and the second has not.
contains-difference :
    (e : ℕ) (a b : List ℕ) → contains e (difference a b) ≡ (contains e a && not (contains e b))
unfolding difference
contains-difference e a b = any-keep (λ k. not (any (λ n. n == k) b)) e a

difference_of_subset :
    (a b : List ℕ) → ((e : ℕ) → contains e a ≡ true → contains e b ≡ true) → difference a b ≡ []
unfolding difference
difference_of_subset [] b h = refl
difference_of_subset (x ∷ a) b h =
    ground (arith, h x, ==-refl x, difference_of_subset a b (λ e c. h e (ground arith)))

-- Extending a node's attributes loses no endpoint.
endpoints-extend :
    {N : Type 0} (old new : AttributesData N) (e : ℕ)
    → contains e (endpoints old) ≡ true
    → contains e (endpoints (extend old new)) ≡ true
endpoints-extend old new e h =
    contains-endpoints e (extend old new)
    ∙ any-keys-extend (λ p. names e (endpoint_of p)) old new (rw (contains-endpoints e old) at h)

module _ {N : Type 0} ⦃num : Numbers N⦄ where
  -- The changed attributes are those given whose value is not the one held.
  pub get-changed :
      (old attributes : AttributesData N) (p : Text)
      → IsSorted attributes
      → get p (changed old attributes) ≡ elim (get p attributes) [
        | none ↦ none
        | some v ↦ if is_value (get p old) v then none else some v
      ]
  unfolding changed
  get-changed old attributes p h =
      rw (get-keep (λ e. not (is_value (get e.0 old) e.1)) p attributes h) (ground arith)

  -- What merging into a node that is there leaves and reports.
  pub record IsMerged (nodes : Nodes N) (node_id : ℕ) (t : StoredNode N)
      (attributes : AttributesData N) (coverage : Coverage) (after : Nodes N) (d : InterviewDiff N)
      : Type 0 where
    pub result : merge_attributes nodes node_id attributes coverage ≡ (after, some d)
    pub stored : get node_id after ≡ some (record t { node = d.node })
    pub held : d.node.attributes ≡ merged coverage t.node.attributes attributes
    pub availability : d.node.available ≡ t.node.available
    pub reported : d.changed_attributes ≡ changed t.node.attributes attributes
    pub added :
        d.endpoints_added
        ≡ difference
            (endpoints (merged coverage t.node.attributes attributes))
            (endpoints t.node.attributes)
    pub gone :
        d.endpoints_removed
        ≡ difference
            (endpoints t.node.attributes)
            (endpoints (merged coverage t.node.attributes attributes))

  pub apply_found :
      (nodes : Nodes N) (node_id : ℕ) (t : StoredNode N) (attributes : AttributesData N) (at : Text)
      → get node_id nodes ≡ some t
      → (after : Nodes N) × (d : InterviewDiff N) × (apply_interview nodes node_id attributes at
          ≡ (after, some d))
        × (get node_id after ≡ some (record t { node = d.node }))
        × (d.node.available ≡ true)
  unfolding apply_interview diff_found interviewed with_attributes diff_of
  apply_found nodes node_id t attributes at found =
      let node : MatterNodeData N = interviewed t.node attributes at in
      (
        insert node_id (record t { node = node }) nodes,
        diff_of t.node.attributes node (changed t.node.attributes attributes)
            (removed t.node.attributes attributes),
        rw found refl,
        get-insert_self node_id (record t { node = node }) nodes,
        refl,
      )

  pub merge_found :
      (nodes : Nodes N) (node_id : ℕ) (t : StoredNode N) (attributes : AttributesData N)
      (coverage : Coverage)
      → get node_id nodes ≡ some t
      → (after : Nodes N) × (d : InterviewDiff N) × IsMerged nodes node_id t attributes coverage
          after d
  unfolding merge_attributes diff_found with_attributes diff_of
  merge_found nodes node_id t attributes coverage found =
      let node : MatterNodeData N =
        with_attributes t.node (merged coverage t.node.attributes attributes) in
      (
        insert node_id (record t { node = node }) nodes,
        diff_of t.node.attributes node (changed t.node.attributes attributes)
            (removals coverage t.node.attributes attributes),
        record {
          result = rw found refl;
          stored = get-insert_self node_id (record t { node = node }) nodes;
          held = refl;
          availability = refl;
          reported = refl;
          added = refl;
          gone = refl;
        },
      )

  -- The removed paths are those held that are not given.
  contains-removed :
      (old attributes : AttributesData N) (p : Text)
      → any (λ q. q == p) (removed old attributes)
        ≡ (is_some (get p old) && not (is_some (get p attributes)))
  unfolding removed contains_key
  contains-removed old attributes p =
      rw (any-keep (λ path. not (is_some (get path attributes))) p (keys old)) (rw (any-keys p old))

module _ {N : Type 0} ⦃num : Numbers N⦄ (nodes : Nodes N) (id : ℕ) (s : StoredNode N)
    (attributes : AttributesData N) (p : Text) (e : ℕ) (found : get id nodes ≡ some s)
    (sorted : IsSorted attributes) where
  -- A partial update, such as a subscription report: a path it does not name keeps its value, no
  -- path and no endpoint is reported as removed, and the changed paths are those with a new value.
  -- The node is stored as it is reported, and it is not a new interview.
  pub merge_partial :
      (d : InterviewDiff N) × ((merge_attributes nodes id attributes partial).1 ≡ some d)
      × (get p d.node.attributes
          ≡ elim (get p attributes) [ none ↦ get p s.node.attributes | some v ↦ some v ])
      × (get p d.changed_attributes ≡ elim (get p attributes) [
        | none ↦ none
        | some v ↦ if is_value (get p s.node.attributes) v then none else some v
      ])
      × (d.removed_attributes ≡ [])
      × (d.endpoints_removed ≡ [])
      × (get id (merge_attributes nodes id attributes partial).0
          ≡ some (record s { node = d.node }))
      × (d.node.interview_version ≡ s.node.interview_version)
      × (d.node.last_interview ≡ s.node.last_interview)
  unfolding merge_attributes
  merge_partial = (
    diff_of s.node.attributes (with_attributes s.node (extend s.node.attributes attributes))
        (changed s.node.attributes attributes) [],
    rw found refl,
    get-extend p s.node.attributes attributes sorted,
    get-changed s.node.attributes attributes p sorted,
    refl,
    difference_of_subset (endpoints s.node.attributes) _
        (endpoints-extend s.node.attributes attributes),
    rw found (get-insert_self id _ nodes),
    refl,
    refl,
  )

  -- An interview reports what a complete read does, and counts as one: the node is available, the
  -- time is noted and the version goes up by one, at the width of its type.
  pub apply_interview_diff :
      (at : Text)
      → (d : InterviewDiff N) × ((apply_interview nodes id attributes at).1 ≡ some d)
        × (get id (apply_interview nodes id attributes at).0 ≡ some (record s { node = d.node }))
        × (d.node.attributes ≡ attributes)
        × (any (λ q. q == p) d.removed_attributes
            ≡ (is_some (get p s.node.attributes) && not (is_some (get p attributes))))
        × (contains e d.endpoints_added
            ≡ (contains e (endpoints attributes) && not (contains e (endpoints s.node.attributes))))
        × (d.node.available ≡ true)
        × (d.node.last_interview ≡ at)
        × (d.node.interview_version ≡ (s.node.interview_version + 1) % 2 ^ 64)
  unfolding apply_interview
  apply_interview_diff at = (
    diff_of s.node.attributes (interviewed s.node attributes at)
        (changed s.node.attributes attributes) (removed s.node.attributes attributes),
    rw found refl,
    rw found (get-insert_self id _ nodes),
    refl,
    contains-removed s.node.attributes attributes p,
    contains-difference e (endpoints attributes) (endpoints s.node.attributes),
    refl,
    refl,
    refl,
  )

-- A value that is not held yet is stored at its path alone, and the node that is answered is the one
-- stored; the same value once more is no change: nothing is answered and nothing is stored.
pub set_attribute_reports_change :
    {N : Type 0} ⦃num : Numbers N⦄ (nodes : Nodes N) (id : ℕ) (s : StoredNode N) (path q : Text)
    (v : Value N)
    → get id nodes ≡ some s
    → is_value (get path s.node.attributes) v ≡ false
    → (node : MatterNodeData N) × ((set_attribute nodes id path v).1 ≡ some node)
      × (get id (set_attribute nodes id path v).0 ≡ some (record s { node = node }))
      × (get q node.attributes ≡ (if path == q then some v else get q s.node.attributes))
      × (set_attribute (set_attribute nodes id path v).0 id path v
          ≡ ((set_attribute nodes id path v).0, none))
unfolding set_attribute
set_attribute_reports_change nodes id s path q v found other = (
  record s.node { attributes = insert path v s.node.attributes },
  rw found (rw other),
  rw found (rw other (get-insert_self id _ nodes)),
  get-insert path q v s.node.attributes,
  rw found (
      rw other (
        rw (get-insert_self id _ nodes)
          (rw (get-insert_self path v s.node.attributes) (rw (value_eq_refl v))))),
)
