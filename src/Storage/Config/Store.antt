-- ===== src/Storage/Config/Store.antt =====
-- server/src/storage/config.rs: the configuration with its file, which every change writes before it
-- is answered, and the node ids that are handed out across restarts.
pub mod Fresh
mod Tests
use Prim.Native.Nat.{max}
use rs_matter_server.Prelude.{
  ℕ, ◌+◌, ◌≤◌, ◌<◌, ◌^◌, ◌%◌, ◌≡◌, refl, Bool, true, false, Option, none, some, List, [], ◌∷◌, ◌++◌,
  nat_ord, arith, if◌then◌else◌, Result, ok, err,
}
use rs_matter_server.Prelude.Text.{Text, text}
use rs_matter_server.Storage.Config.{
  ConfigData, initial, normalize_fabric_label, allocate_node_id, reserve_node_ids_above,
  set_wifi_credentials, remove_wifi_credentials, set_thread_dataset, remove_thread_dataset,
}

-- The encoding is serde's: a file is missing, malformed, or holds a configuration.
pub data File : Type 0 where
  missing malformed : File
  saved : ConfigData → File

pub record ConfigStore : Type 0 where
  pub config : ConfigData
  pub path : Option Text
  pub file : File

unfoldable pub in_memory : File → ConfigStore
in_memory file = record { config = initial; path = none; file = file }

unfoldable pub load : Text → File → Result Text ConfigStore
load path missing = ok (record { config = initial; path = some path; file = missing })
load path malformed = err (text "parsing config " ++ path)
load path (saved config) = ok (record { config = config; path = some path; file = saved config })

-- The write replaces the file as a whole, or fails and leaves it.
unfoldable pub save_locked : Bool → ConfigStore → Result Text Unit × ConfigStore
save_locked written store = elim store.path [
  | none ↦ (ok tt, store)
  | some path ↦
      if written
      then (ok tt, record store { file = saved store.config })
      else (err (text "writing config " ++ path), store)
]

unfoldable pub after_save :
    {T : Type 0} → T → Result Text Unit × ConfigStore → Result Text T × ConfigStore
after_save out (ok u, store) = (ok out, store)
after_save out (err e, store) = (err e, store)

-- The change is made in memory, then written; what is answered is withheld where the write fails.
unfoldable pub mutate :
    {T : Type 0} → Bool → (ConfigData → ConfigData × T) → ConfigStore → Result Text T × ConfigStore
unfolding after_save save_locked
mutate written f store =
    let out = f store.config in
    after_save out.1 (save_locked written (record store { config = out.0 }))

-- The credentials are checked before anything changes.
unfoldable pub mutate_checked :
    Bool → (ConfigData → Result Text ConfigData) → ConfigStore → Result Text Unit × ConfigStore
unfolding save_locked
mutate_checked written f store = elim (f store.config) [
  | err e ↦ (err e, store)
  | ok config ↦ save_locked written (record store { config = config })
]

-- The operations of a store, with whether the write they end in succeeds.
unfoldable pub set_fabric_label : Bool → Text → ConfigStore → Result Text Text × ConfigStore
unfolding mutate
set_fabric_label written label store =
    let normalized : Text = normalize_fabric_label (some label) in
    mutate written (λ config. (record config { fabric_label = normalized }, normalized)) store

unfoldable pub allocate : Bool → ConfigStore → Result Text ℕ × ConfigStore
unfolding mutate
allocate written store = mutate written allocate_node_id store

unfoldable pub reserve_above : Bool → ℕ → ConfigStore → Result Text Unit × ConfigStore
unfolding mutate
reserve_above written highest store =
    mutate written (λ config. (reserve_node_ids_above highest config, tt)) store

-- What may happen between two allocations: any operation on the store, and a restart, which loads
-- what the file holds.
pub data Op : Type 0 where
  label : Bool → Text → Op
  allocates : Bool → Op
  reserves : Bool → ℕ → Op
  sets_wifi : Bool → Option Text → Text → Option Text → Op
  removes_wifi : Bool → Option Text → Op
  sets_thread : Bool → Option Text → Text → Op
  removes_thread : Bool → Option Text → Op
  restarts : Op

restarted : ConfigStore → ConfigStore
restarted store = elim store.path [
  | none ↦ store
  | some path ↦ elim (load path store.file) [ ok loaded ↦ loaded | err e ↦ store ]
]

unfoldable pub step : ConfigStore → Op → ConfigStore
unfolding restarted
step store (label w l) = (set_fabric_label w l store).1
step store (allocates w) = (allocate w store).1
step store (reserves w highest) = (reserve_above w highest store).1
step store (sets_wifi w id ssid credentials) =
    (mutate_checked w (set_wifi_credentials id ssid credentials) store).1
step store (removes_wifi w id) =
    (mutate w (λ config. (remove_wifi_credentials id config, tt)) store).1
step store (sets_thread w id dataset) = (mutate_checked w (set_thread_dataset id dataset) store).1
step store (removes_thread w id) =
    (mutate w (λ config. (remove_thread_dataset id config, tt)) store).1
step store restarts = restarted store

unfoldable pub run : ConfigStore → List Op → ConfigStore
run store [] = store
run store (op ∷ ops) = run (step store op) ops
