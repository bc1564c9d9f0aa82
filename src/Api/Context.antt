-- ===== src/Api/Context.antt =====
-- server/src/api/mod.rs: what the handlers share: the cached fabric, the check-ins, the ledgers, and the
-- node that a command names. What the Matter stack answers is an argument.
use rs_matter_server.Prelude.{
  ℕ, ◌&&◌, Bool, Option, none, some, List, nat_ord, leb, if◌then◌else◌, is_some, ok, err, ◌>>=◌,
}
use rs_matter_server.Prelude.Text.{Text, text}
use rs_matter_server.Prelude.Map.{Map, get, insert}
use rs_matter_server.Protocol.Json.{Numbers}
use rs_matter_server.Protocol.Message.{Args, req_u64}
use rs_matter_server.Protocol.Error.{Api, not_exists}
use rs_matter_server.Storage.Nodes.{Nodes}
use rs_matter_server.Storage.Config.Store.{ConfigStore}

pub record FabricInfo : Type 0 where
  pub fabric_id : ℕ
  pub compressed_fabric_id : ℕ
  pub fabric_index : ℕ
  pub node_id : ℕ
  pub vendor_id : ℕ
  pub label : Text

-- A command that was sent to a device: `RegisterClient` with its key, and `UnregisterClient`.
pub data Sent : Type 0 where
  registers : ℕ → ℕ → List ℕ → Sent
  unregisters : ℕ → ℕ → Sent

-- The part of `ServerContext` that handlers read and change, with the commands sent so far.
pub record ServerContext (N : Type 0) : Type 0 where
  pub nodes : Nodes N
  pub config : ConfigStore
  pub check_ins : Map ℕ ℕ
  pub fabric : Option FabricInfo
  pub sent : List Sent

unfoldable pub is_test_vendor : ℕ → Bool
is_test_vendor vendor_id = leb 65521 vendor_id && leb vendor_id 65524

-- The ledger that is asked about a vendor: there may be none for test vendors.
unfoldable pub ledger_for : {Client : Type 0} → Client → Option Client → ℕ → Option Client
unfolding is_test_vendor
ledger_for dcl test_dcl vendor_id = if is_test_vendor vendor_id then test_dcl else some dcl

-- `check_dcl` and `published_image`: without a ledger there is nothing.
unfoldable pub ask_ledger :
    {Client Answer : Type 0}
    → Client
    → Option Client
    → (Client → Api (Option Answer))
    → ℕ
    → Api (Option Answer)
unfolding ledger_for
ask_ledger dcl test_dcl ask vendor_id = elim (ledger_for dcl test_dcl vendor_id) [
  | none ↦ ok none
  | some client ↦ ask client
]

module _ {N : Type 0} where
  -- The stack is asked only until it answered once.
  unfoldable pub fabric_info : Api FabricInfo → ServerContext N → Api FabricInfo × ServerContext N
  fabric_info answer c = elim c.fabric [
    | some fabric ↦ (ok fabric, c)
    | none ↦ elim answer [
      | err e ↦ (err e, c)
      | ok fabric ↦ (ok fabric, record c { fabric = some fabric })
    ]
  ]

  unfoldable pub set_fabric_info : FabricInfo → ServerContext N → ServerContext N
  set_fabric_info fabric c = record c { fabric = some fabric }

  unfoldable pub update_cached_fabric_label : Text → ServerContext N → ServerContext N
  update_cached_fabric_label label c = elim c.fabric [
    | none ↦ c
    | some fabric ↦ record c { fabric = some (record fabric { label = label }) }
  ]

  unfoldable pub note_check_in : ℕ → ℕ → ServerContext N → ServerContext N
  note_check_in node_id at c = record c { check_ins = insert node_id at c.check_ins }

  unfoldable pub last_check_in : ℕ → ServerContext N → Option ℕ
  last_check_in node_id c = get node_id c.check_ins

  -- `?`: the first error ends a handler, and leaves what was changed before it.
  abbrev pub and_call :
      {A B : Type 0}
      → Api A × ServerContext N
      → (A → ServerContext N → Api B × ServerContext N)
      → Api B × ServerContext N
  and_call (err e, c) next = (err e, c)
  and_call (ok a, c) next = next a c

  unfoldable pub require_node : ⦃num : Numbers N⦄ → Args N → ServerContext N → Api ℕ
  require_node args c = req_u64 (text "node_id") args >>= λ node_id.
      if is_some (get node_id c.nodes) then ok node_id else err (not_exists node_id)
