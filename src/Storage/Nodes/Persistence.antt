-- ===== src/Storage/Nodes/Persistence.antt =====
-- server/src/storage/nodes.rs: the snapshot on disk, when it is written and what is read back. The
-- encoding is serde's; a file is missing, malformed, or holds the nodes of a snapshot.
mod Tests
use Prim.Native.Nat.{max}
use rs_matter_server.Prelude.{
  ℕ, ◌+◌, ◌≤◌, ◌≡◌, ◌⊎◌, inl, inr, refl, if_true, if_false, if_either, Bool, true, false, Option,
  none, some, List, [], ◌∷◌, nat_ord, map, arith, if◌then◌else◌, Result, ok, err,
}
use rs_matter_server.Prelude.Map.{Map, extend, values, IsSorted}
use rs_matter_server.Storage.Nodes.{StoredNode, Nodes}

pub data File (N : Type 0) : Type 0 where
  missing malformed : File N
  snapshot : List (StoredNode N) → File N

-- `NodeStore`, with what its writer thread keeps. `path` says whether there is a file at all.
pub record Store (N : Type 0) : Type 0 where
  pub nodes : Nodes N
  pub path : Bool
  pub dirty : Bool
  pub running : Bool
  pub last_write : Option ℕ
  pub writes : ℕ

-- Two seconds, in milliseconds.
abbrev pub write_interval : ℕ
write_interval = 2000

module _ {N : Type 0} where
  unfoldable pub collect : List (StoredNode N) → Nodes N
  collect nodes = extend [] (map (λ s. (s.node.node_id, s)) nodes)

  unfoldable pub load : File N → ℕ → Result Unit (Store N)
  load missing now = ok (record {
    nodes = [];
    path = true;
    dirty = false;
    running = false;
    last_write = some now;
    writes = 0;
  })
  load malformed now = err tt
  load (snapshot nodes) now = ok (record {
    nodes = collect nodes;
    path = true;
    dirty = false;
    running = false;
    last_write = some now;
    writes = 0;
  })

  -- The write goes to a temporary file that is renamed over the old one: where it fails, the file is
  -- as it was.
  unfoldable pub save : Bool → ℕ → Store N → File N → Store N × File N × Bool
  save written now store file =
      let begun : Store N = record store { dirty = false; last_write = some now } in
      if store.path
      then (if written
          then (record begun { writes = store.writes + 1 }, snapshot (values store.nodes), true)
          else (begun, file, false))
      else (store, file, true)

  unfoldable pub save_soon : Store N → Store N
  save_soon store = if store.path then record store { dirty = true; running = true } else store

  unfoldable pub flush : Bool → ℕ → Store N → File N → Store N × File N × Bool
  flush written now store file =
      let saved = save written now store file in if store.dirty then saved else (store, file, true)

  -- When the writer thread may write: not sooner than the interval after the last write.
  unfoldable pub due : Store N → ℕ → ℕ
  due store now = elim store.last_write [ none ↦ now | some last ↦ max now (last + write_interval) ]

-- What happens to a store between loading and dropping it. A change of the nodes that is to be kept
-- is followed by `save_soon` or by `save`.
pub data Event (N : Type 0) : Type 0 where
  change_soon : (Nodes N → Nodes N) → Event N
  change_now : (Nodes N → Nodes N) → Bool → ℕ → Event N
  flushed dropped : Bool → ℕ → Event N
  writer_wakes : Bool → ℕ → Event N
  writer_idles : Event N

module _ {N : Type 0} where
  saved : Store N × File N × Bool → Store N × File N
  saved (store, file, done) = (store, file)

  unfoldable pub step : Store N × File N → Event N → Store N × File N
  unfolding saved
  step (store, file) (change_soon f) = (save_soon (record store { nodes = f store.nodes }), file)
  step (store, file) (change_now f written now) =
      saved (save written now (record store { nodes = f store.nodes }) file)
  step (store, file) (flushed written now) = saved (flush written now store file)
  step (store, file) (dropped written now) = saved (flush written now store file)
  step (store, file) (writer_wakes written now) =
      let write = saved (save written (due store now) store file) in
      if store.running then (if store.dirty then write else (store, file)) else (store, file)
  step (store, file) writer_idles =
      (if store.dirty then store else record store { running = false }, file)

  unfoldable pub run : Store N × File N → List (Event N) → Store N × File N
  run s [] = s
  run s (e ∷ es) = run (step s e) es

  abbrev pub IsWritten : Event N → Type 0
  IsWritten (change_now f written now) = written ≡ true
  IsWritten (flushed written now) = written ≡ true
  IsWritten (dropped written now) = written ≡ true
  IsWritten (writer_wakes written now) = written ≡ true
  IsWritten e = Unit

  -- A clean store has its nodes on disk, and a dirty one has a writer thread that will write them.
  pub record IsPersistent (s : Store N × File N) : Type 0 where
    pub has_path : s.0.path ≡ true
    pub on_disk : (s.0.dirty ≡ true) ⊎ (s.1 ≡ snapshot (values s.0.nodes))
    pub has_writer : (s.0.dirty ≡ false) ⊎ (s.0.running ≡ true)

  -- Nothing is left to write, and the nodes are those of the store.
  abbrev pub IsFlushed : Store N → Store N × File N × Bool → Type 0
  IsFlushed store (after, file, done) =
      (after.dirty ≡ false)
      × (after.nodes ≡ store.nodes)
      × (file ≡ snapshot (values store.nodes))
      × (done ≡ true)

  -- Dropping or flushing a store that was kept so leaves its nodes on disk and nothing to write.
  pub flush_leaves_on_disk :
      (store : Store N) (file : File N) (now : ℕ)
      → IsPersistent (store, file)
      → IsFlushed store (flush true now store file)
  unfolding flush save
  flush_leaves_on_disk store file now h =
      if_either (IsFlushed store) store.dirty _ _
        (λ d. if_true (IsFlushed store) store.path _ _ h.has_path (refl, refl, refl, refl))
        (λ d. (d, refl, elim h.on_disk [ inl t ↦ cc | inr e ↦ e ], refl))
