-- ===== src/Storage/Nodes/Invariant.antt =====
-- server/src/storage/nodes.rs: the store stays a map from node ids to those nodes.
use rs_matter_server.Prelude.{
  ℕ, ◌≡◌, refl, ◌∙◌, Bool, Option, none, some, List, [], ◌∷◌, nat_ord, text_ord, All, All-keep,
  arith, Bool-cases, inl, inr,
}
use rs_matter_server.Prelude.Text.{Text}
use rs_matter_server.Prelude.Map.{get, insert, remove, IsSorted, insert-IsSorted, remove-IsSorted}
use rs_matter_server.Protocol.Json.{Numbers, Value}
use rs_matter_server.Protocol.Model.{MatterNodeData, AttributesData}
use rs_matter_server.Storage.Nodes.{
  StoredNode, Nodes, Coverage, InterviewDiff, is_value, upsert, remove_node, set_available,
  available_found, set_ip_addresses, update_found, apply_interview, merge_attributes, diff_found,
  set_attribute, set_found,
}

module _ {N : Type 0} where
  -- Each node is held under its own id.
  abbrev pub IsKeyed : Nodes N → Type 0
  IsKeyed nodes = All (λ e. e.1.node.node_id ≡ e.0) nodes

  pub record IsWellFormed (nodes : Nodes N) : Type 0 where
    pub sorted : IsSorted nodes
    pub keyed : IsKeyed nodes

  insert-IsKeyed :
      (id : ℕ) (s : StoredNode N) (nodes : Nodes N)
      → s.node.node_id ≡ id
      → IsKeyed nodes
      → IsKeyed (insert id s nodes)
  unfolding insert
  insert-IsKeyed id s [] e h = (e, tt)
  insert-IsKeyed id s ((k, t) ∷ nodes) e (p, h) = ground (arith, insert-IsKeyed id s nodes e h)

  insert-IsWellFormed :
      (id : ℕ) (s : StoredNode N) (nodes : Nodes N)
      → s.node.node_id ≡ id
      → IsWellFormed nodes
      → IsWellFormed (insert id s nodes)
  insert-IsWellFormed id s nodes e h = record {
    sorted = insert-IsSorted id s nodes h.sorted;
    keyed = insert-IsKeyed id s nodes e h.keyed;
  }

  node_id-get :
      (id : ℕ) (s : StoredNode N) (nodes : Nodes N)
      → IsKeyed nodes
      → get id nodes ≡ some s
      → s.node.node_id ≡ id
  unfolding get
  node_id-get id s [] h e = cc
  node_id-get id s ((k, t) ∷ nodes) (p, h) e =
      ground (arith, node_id-get id s nodes h, nat_ord.cmp_eq k id)

-- What the handlers do to the store.
pub data Op (N : Type 0) : Type 0 where
  add : StoredNode N → Op N
  drop_node : ℕ → Op N
  reach : ℕ → Bool → Op N
  locate : ℕ → List Text → Op N
  interview : ℕ → AttributesData N → Text → Op N
  merge : ℕ → AttributesData N → Coverage → Op N
  set_one : ℕ → Text → Value N → Op N

module _ {N : Type 0} ⦃num : Numbers N⦄ where
  unfoldable pub step : Nodes N → Op N → Nodes N
  step nodes (add s) = upsert nodes s
  step nodes (drop_node id) = (remove_node nodes id).0
  step nodes (reach id available) = (set_available nodes id available).0
  step nodes (locate id addresses) = set_ip_addresses nodes id addresses
  step nodes (interview id attributes at) = (apply_interview nodes id attributes at).0
  step nodes (merge id attributes coverage) = (merge_attributes nodes id attributes coverage).0
  step nodes (set_one id path v) = (set_attribute nodes id path v).0

  unfoldable pub run : Nodes N → List (Op N) → Nodes N
  unfolding step
  run nodes [] = nodes
  run nodes (op ∷ ops) = run (step nodes op) ops

  -- Putting a node back under the id where it was found, with that id unchanged.
  replace-IsWellFormed :
      (id : ℕ) (s t : StoredNode N) (nodes : Nodes N)
      → get id nodes ≡ some s
      → t.node.node_id ≡ s.node.node_id
      → IsWellFormed nodes
      → IsWellFormed (insert id t nodes)
  replace-IsWellFormed id s t nodes found e h =
      insert-IsWellFormed id t nodes (e ∙ node_id-get id s nodes h.keyed found) h

  diff_found-IsWellFormed :
      (id : ℕ) (f : MatterNodeData N → MatterNodeData N) (d : MatterNodeData N → InterviewDiff N)
      (nodes : Nodes N) (o : Option (StoredNode N))
      → get id nodes ≡ o
      → ((node : MatterNodeData N) → (f node).node_id ≡ node.node_id)
      → IsWellFormed nodes
      → IsWellFormed (diff_found id f d nodes o).0
  unfolding diff_found
  diff_found-IsWellFormed id f d nodes none found keeps h = h
  diff_found-IsWellFormed id f d nodes (some s) found keeps h =
      replace-IsWellFormed id s (record s { node = f s.node }) nodes found (keeps s.node) h

  set_found-IsWellFormed :
      (id : ℕ) (path : Text) (v : Value N) (nodes : Nodes N) (o : Option (StoredNode N))
      → get id nodes ≡ o
      → IsWellFormed nodes
      → IsWellFormed (set_found id path v nodes o).0
  unfolding set_found
  set_found-IsWellFormed id path v nodes none found h = h
  set_found-IsWellFormed id path v nodes (some s) found h =
      elim (Bool-cases (is_value (get path s.node.attributes) v)) [
        | inl same ↦ rw same h
        | inr other ↦ rw other (
            replace-IsWellFormed id s
              (record s { node = record s.node { attributes = insert path v s.node.attributes } })
              nodes found refl h)
      ]

  available_found-IsWellFormed :
      (id : ℕ) (available : Bool) (nodes : Nodes N) (o : Option (StoredNode N))
      → get id nodes ≡ o
      → IsWellFormed nodes
      → IsWellFormed (available_found id available nodes o).0
  unfolding available_found
  available_found-IsWellFormed id available nodes none found h = h
  available_found-IsWellFormed id available nodes (some s) found h =
      replace-IsWellFormed id s (record s { node = record s.node { available = available } }) nodes
        found refl h

  update_found-IsWellFormed :
      (id : ℕ) (f : StoredNode N → StoredNode N) (nodes : Nodes N) (o : Option (StoredNode N))
      → get id nodes ≡ o
      → ((s : StoredNode N) → (f s).node.node_id ≡ s.node.node_id)
      → IsWellFormed nodes
      → IsWellFormed (update_found id f nodes o).0
  unfolding update_found
  update_found-IsWellFormed id f nodes none found keeps h = h
  update_found-IsWellFormed id f nodes (some s) found keeps h =
      replace-IsWellFormed id s (f s) nodes found (keeps s) h

  -- Every operation keeps the store a map from node ids to the nodes of those ids.
  pub step-IsWellFormed :
      (nodes : Nodes N) (op : Op N) → IsWellFormed nodes → IsWellFormed (step nodes op)
  unfolding step upsert remove_node remove set_available set_ip_addresses apply_interview
      merge_attributes set_attribute
  step-IsWellFormed nodes (add s) h = insert-IsWellFormed s.node.node_id s nodes refl h
  step-IsWellFormed nodes (drop_node id) h = record {
    sorted = remove-IsSorted id nodes h.sorted;
    keyed = All-keep (λ e. e.1.node.node_id ≡ e.0) _ nodes h.keyed;
  }
  step-IsWellFormed nodes (reach id available) h =
      available_found-IsWellFormed id available nodes (get id nodes) refl h
  step-IsWellFormed nodes (locate id addresses) h =
      update_found-IsWellFormed id _ nodes (get id nodes) refl (λ s. refl) h
  step-IsWellFormed nodes (interview id attributes at) h =
      diff_found-IsWellFormed id _ _ nodes (get id nodes) refl (λ node. refl) h
  step-IsWellFormed nodes (merge id attributes coverage) h =
      diff_found-IsWellFormed id _ _ nodes (get id nodes) refl (λ node. refl) h
  step-IsWellFormed nodes (set_one id path v) h =
      set_found-IsWellFormed id path v nodes (get id nodes) refl h
