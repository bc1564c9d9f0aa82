-- ===== src/Migrate/Takeover/Reserved.antt =====
-- server/src/migrate/mod.rs: ids of imported nodes are never handed out again, and the nodes are taken
-- over as they were read.
use mathlib.Core.Option
use rs_matter_server.Prelude.{
  ℕ, ◌<◌, ◌≡◌, refl, ◌∙◌, Option, none, some, List, [], ◌∷◌, ◌==◌, nat_ord, text_ord, if◌then◌else◌,
  Bool-cases, Option-cases, inl, inr,
}
use rs_matter_server.Prelude.Text.{Text}
use rs_matter_server.Prelude.Map.{get, insert, get-insert}
use rs_matter_server.Storage.Config.{ConfigData}
use rs_matter_server.Storage.Config.Store.{
  mutate, mutate_checked, set_fabric_label, reserve_above, Op, step, run, allocate, after_save,
  save_locked,
}
use rs_matter_server.Storage.Config.Store
use rs_matter_server.Storage.Nodes.{Nodes, upsert}
use rs_matter_server.Storage.Nodes.Persistence
use rs_matter_server.Protocol.Model
use rs_matter_server.Migrate.Import.{ImportedNode}
use rs_matter_server.Migrate.Takeover.{Applied, take_nodes, stored_node, Import}

abbrev pub IsTaken : {N : Type 0} → ℕ → Applied N → Type 0
IsTaken id applied =
    (config : ConfigData) × (applied.config_file ≡ Store.saved config) × (id < config.next_node_id)

-- The last of the imported nodes with an id.
abbrev pub last_import : ℕ → List ImportedNode → Option ImportedNode
last_import id [] = none
last_import id (n ∷ more) = elim (last_import id more) [
  | none ↦ if n.node_id == id then some n else none
  | some m ↦ some m
]

module _ {N : Type 0} (commissioned_at : Option ℕ → Text) (import : Import) where
  -- Every imported node is taken over as it was read, not available, and every other one is as it was.
  pub get-take_nodes :
      (id : ℕ) (ns : List ImportedNode) (nodes : Nodes N)
      → get id (take_nodes commissioned_at ns nodes) ≡ elim (last_import id ns) [
        | none ↦ get id nodes
        | some n ↦ some (stored_node commissioned_at n)
      ]
  unfolding take_nodes upsert stored_node Model.new
  get-take_nodes id [] nodes = refl
  get-take_nodes id (n ∷ more) nodes =
      get-take_nodes id more (insert n.node_id (stored_node commissioned_at n) nodes)
      ∙ elim (Option-cases (last_import id more)) [
        | inr (m, e) ↦ rw e refl
        | inl e ↦ rw e (
            get-insert n.node_id id (stored_node commissioned_at n) nodes
            ∙ elim (Bool-cases (n.node_id == id)) [ inl k ↦ rw k refl | inr k ↦ rw k refl ])
      ]
