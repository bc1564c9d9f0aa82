-- ===== src/Storage/Nodes/Lookup.antt =====
-- server/src/storage/nodes.rs: what the store's readers answer, and availability.
use mathlib.Core.List.{reverse, reverse-cons}
use rs_matter_server.Prelude.{
  ℕ, ◌≡◌, ◌↔◌, ◌≤◌, ◌<◌, refl, Bool, true, false, not, none, some, List, [], ◌∷◌, ◌++◌, nat_ord,
  ltb, ltb→lt, lt→ltb, find, is_some, arith, if◌then◌else◌, Option-cases, inl, inr,
}
use rs_matter_server.Prelude.Map.{get, insert, keys, IsSorted, IsAbove, get-insert_self}
use rs_matter_server.Protocol.Model.{MatterNodeData, test_node_start}
use rs_matter_server.Storage.Nodes.{StoredNode, Nodes, set_available, highest_node_id}

find-append :
    (p : ℕ → Bool) (xs ys : List ℕ)
    → find p (xs ++ ys) ≡ elim (find p xs) [ none ↦ find p ys | some x ↦ some x ]
find-append p [] ys = refl
find-append p (x ∷ xs) ys = ground (arith, find-append p xs ys)

-- The last element that passes.
find-reverse-cons :
    (p : ℕ → Bool) (x : ℕ) (xs : List ℕ)
    → find p (reverse (x ∷ xs))
      ≡ elim (find p (reverse xs)) [ none ↦ if p x then some x else none | some y ↦ some y ]
find-reverse-cons p x xs = rw reverse-cons (find-append p (reverse xs) (x ∷ []))

module _ {N : Type 0} where
  last_passing :
      (p : ℕ → Bool) (nodes : Nodes N) (h : ℕ)
      → find p (reverse (keys nodes)) ≡ some h
      → (p h ≡ true) × (is_some (get h nodes) ≡ true)
  unfolding get
  last_passing p [] h e = cc
  last_passing p ((k, s) ∷ nodes) h e =
      ground (arith, find-reverse-cons p k (keys nodes), last_passing p nodes h, nat_ord.cmp_eq k h)

  above_in_map :
      (k : ℕ) (nodes : Nodes N) (j : ℕ) → IsAbove k nodes → is_some (get j nodes) ≡ true → k < j
  unfolding get
  above_in_map k [] j a g = cc
  above_in_map k ((i, s) ∷ nodes) j (b, a) g = ground (arith, above_in_map k nodes j a)

  last_without :
      (p : ℕ → Bool) (k : ℕ) (t : StoredNode N) (nodes : Nodes N) (j : ℕ)
      → (is_some (get j nodes) ≡ true
          → (h : ℕ) × (find p (reverse (keys nodes)) ≡ some h) × (j ≤ h))
      → is_some (get j ((k, t) ∷ nodes)) ≡ true
      → p j ≡ true
      → find p (reverse (keys nodes)) ≡ none
      → (h : ℕ) × (find p (reverse (k ∷ keys nodes)) ≡ some h) × (j ≤ h)
  unfolding get
  last_without p k t nodes j s g q e =
      ground (arith, find-reverse-cons p k (keys nodes), nat_ord.cmp_eq k j)

  last_within :
      (p : ℕ → Bool) (k : ℕ) (t : StoredNode N) (nodes : Nodes N) (j : ℕ)
      → IsAbove k nodes
      → (is_some (get j nodes) ≡ true
          → (h : ℕ) × (find p (reverse (keys nodes)) ≡ some h) × (j ≤ h))
      → is_some (get j ((k, t) ∷ nodes)) ≡ true
      → (h : ℕ) → find p (reverse (keys nodes)) ≡ some h
      → (h : ℕ) × (find p (reverse (k ∷ keys nodes)) ≡ some h) × (j ≤ h)
  unfolding get
  last_within p k t nodes j a s g h e = (
    h,
    rw (find-reverse-cons p k (keys nodes), e) refl,
    ground (arith, above_in_map k nodes h a (last_passing p nodes h e).1),
  )

  last_is_greatest :
      (p : ℕ → Bool) (nodes : Nodes N) (j : ℕ)
      → IsSorted nodes
      → is_some (get j nodes) ≡ true
      → p j ≡ true
      → (h : ℕ) × (find p (reverse (keys nodes)) ≡ some h) × (j ≤ h)
  unfolding get
  last_is_greatest p [] j s g q = cc
  last_is_greatest p ((k, t) ∷ nodes) j (a, s) g q =
      elim (Option-cases (find p (reverse (keys nodes)))) [
        | inl e ↦ last_without p k t nodes j (λ r. last_is_greatest p nodes j s r q) g q e
        | inr (h, e) ↦ last_within p k t nodes j a (λ r. last_is_greatest p nodes j s r q) g h e
      ]

  -- The counter is restored above every operational node: what is answered is the greatest id of the
  -- store below those of test nodes.
  pub highest_node_id_greatest :
      (nodes : Nodes N) (j : ℕ)
      → IsSorted nodes
      → is_some (get j nodes) ≡ true
      → j < test_node_start
      → (h : ℕ) × (highest_node_id nodes ≡ some h)
        × (is_some (get h nodes) ≡ true)
        × (h < test_node_start)
        × (j ≤ h)
  unfolding highest_node_id
  highest_node_id_greatest nodes j s g q =
      let (h, e, l) =
        last_is_greatest (λ id. ltb id test_node_start) nodes j s g (lt→ltb j test_node_start q) in
      let (b, i) = last_passing (λ id. ltb id test_node_start) nodes h e in
      (h, e, i, ltb→lt h test_node_start b, l)

  -- A change of availability is reported once: it is a change exactly where the node had the other
  -- value, the node is stored with the new one, and setting it again is no change.
  pub set_available_reports_change :
      (nodes : Nodes N) (id : ℕ) (s : StoredNode N) (available : Bool)
      → get id nodes ≡ some s
      → (node : MatterNodeData N) × (changed : Bool) × ((set_available nodes id available).1
          ≡ some (node, changed))
        × ((changed ≡ false) ↔ (s.node.available ≡ available))
        × (get id (set_available nodes id available).0 ≡ some (record s { node = node }))
        × ((set_available (set_available nodes id available).0 id available).1 ≡ some (node, false))
  unfolding set_available
  set_available_reports_change nodes id s available found = (
    record s.node { available = available },
    if s.node.available then not available else available,
    rw found refl,
    ground arith,
    rw (found, get-insert_self) refl,
    rw (found, get-insert_self) ground arith,
  )

  -- What marking a node that is there leaves.
  pub set_available_found :
      (nodes : Nodes N) (id : ℕ) (s : StoredNode N) (available : Bool)
      → get id nodes ≡ some s
      → (changed : Bool) × (set_available nodes id available ≡ (
        insert id (record s { node = record s.node { available = available } }) nodes,
        some (record s.node { available = available }, changed),
      ))
  unfolding set_available
  set_available_found nodes id s available found =
      (if s.node.available then not available else available, rw found refl)
