-- ===== src/Migrate/Namespaces.antt =====
-- server/src/migrate/store.rs: which driver wrote a directory, the one-file-per-key driver, and the
-- namespaces of a storage directory.
use rs_matter_server.Prelude.{
  and_then, ℕ, Bool, true, false, not, ◌&&◌, ◌||◌, Option, none, some, List, [], ◌∷◌, ◌++◌, ◌==◌,
  nat_ord, text_ord, any, length, if◌then◌else◌, unwrap_or, is_some, Result, ok, err, ◌>>=◌, ok_or,
}
use rs_matter_server.Prelude.Text.{Text, text, split, parse_uint}
use rs_matter_server.Prelude.Text.Utf8.{from_utf8, to_utf8}
use rs_matter_server.Prelude.Text.Affix.{strip_prefix, ends_with, join}
use rs_matter_server.Prelude.Map.{Map, get, insert, keys}
use rs_matter_server.Protocol.Json
use rs_matter_server.Protocol.Json.{Numbers, Value, as_str}
use rs_matter_server.Migrate.Value.{Formats, MjValue, from_json_str}
use rs_matter_server.Migrate.Store.{
  Contexts, Driver, wal_driver, file_driver, json_driver, parse_driver,
}
use rs_matter_server.Migrate.Directory.{WalEntry, StoredFile, read_wal, read_snapshot, read_json}

unfoldable pub is_reserved : Text → Bool
is_reserved name =
    name == text "driver.json" || (name == text "matter.lock" || name == text "matter.pid")

-- `decodeURIComponent`: a `%` that two hexadecimal digits do not follow stays. Two bytes after it
-- that are no text at all fail the name.
unfoldable pub decode_bytes : List ℕ → Option (List ℕ)
decode_bytes (p ∷ a ∷ b ∷ bytes) =
    let escaped = decode_bytes bytes in
    let plain = decode_bytes (a ∷ b ∷ bytes) in
    if p == b'%'
    then (if is_some (from_utf8 (a ∷ b ∷ []))
        then elim (parse_uint 16 255 (a ∷ b ∷ [])) [
          | some byte ↦ and_then escaped (λ bs. some (byte ∷ bs))
          | none ↦ and_then plain (λ bs. some (p ∷ bs))
        ]
        else none)
    else and_then plain (λ bs. some (p ∷ bs))
decode_bytes (a ∷ b ∷ []) = some (a ∷ b ∷ [])
decode_bytes (a ∷ []) = some (a ∷ [])
decode_bytes [] = some []

unfoldable pub percent_decode : Text → Result Text Text
unfolding decode_bytes
percent_decode name =
    ok_or (and_then (decode_bytes (to_utf8 name)) from_utf8) (text "decoding the storage filename")

-- One entry of a directory, and what reading it answers where it is a file.
pub record DirEntry : Type 0 where
  pub name : Text
  pub is_file : Bool
  pub document : Result Text Text

-- The path, joined again, and the key, which is the last part.
unfoldable pub split_key : List Text → Option (List Text × Text)
split_key [] = none
split_key (key ∷ []) = some ([], key)
split_key (part ∷ next ∷ parts) = and_then (split_key (next ∷ parts)) (λ r. some (part ∷ r.0, r.1))

module _ {N F : Type 0} ⦃num : Numbers N⦄ (fmt : Formats N F) where
  -- A value that cannot be parsed is skipped.
  pub put_file : Text → Text → Contexts F → Contexts F
  unfolding split_key
  put_file decoded document contexts = elim (split_key (split b'.' decoded)) [
    | none ↦ contexts
    | some (parts, key) ↦ elim (from_json_str fmt document) [
      | none ↦ contexts
      | some value ↦
          let context = join (text ".") parts in
          insert context (insert key value (unwrap_or (get context contexts) [])) contexts
    ]
  ]

  pub read_file : DirEntry → Contexts F → Result Text (Contexts F)
  unfolding put_file is_reserved percent_decode
  read_file e contexts =
      if not e.is_file || (is_reserved e.name || ends_with e.name (text ".tmp"))
      then ok contexts
      else (percent_decode e.name >>= λ decoded.
          e.document >>= λ document. ok (put_file decoded document contexts))

  unfoldable pub read_files : List DirEntry → Contexts F → Result Text (Contexts F)
  unfolding read_file
  read_files [] contexts = ok contexts
  read_files (e ∷ es) contexts = read_file e contexts >>= λ next. read_files es next

-- A directory: its entries, its log, its snapshots, and the documents `driver.json` and
-- `storage.json`, where those are files.
pub record Directory : Type 0 where
  pub name : Text
  pub is_dir : Bool
  pub entries : List DirEntry
  pub wal : Option (List WalEntry)
  pub gzipped : Option StoredFile
  pub plain : Option StoredFile
  pub descriptor : Option (Result Text Text)
  pub storage_json : Option (Result Text Text)

module _ {N F : Type 0} ⦃num : Numbers N⦄ (fmt : Formats N F) where
  pub descriptor_kind : Value N → Option Text
  descriptor_kind parsed =
      let type_name = and_then (Json.get (text "type") parsed) as_str in
      let kind = and_then (Json.get (text "kind") parsed) as_str in
      elim type_name [
        | none ↦ kind
        | some t ↦ if t == text "blob" then some (text "blob") else kind
      ]

  unfoldable pub read_descriptor_kind : Directory → Result Text (Option Text)
  unfolding descriptor_kind
  read_descriptor_kind d = elim d.descriptor [
    | none ↦ ok none
    | some file ↦ file >>= λ document. elim (fmt.parse_json document) [
      | none ↦ err (text "parsing the descriptor")
      | some parsed ↦ ok (descriptor_kind parsed)
    ]
  ]

  -- What a directory is without a descriptor.
  pub legacy_driver : Directory → Option (Option Driver)
  unfolding is_reserved
  legacy_driver d =
      if is_some d.wal || (is_some d.gzipped || is_some d.plain)
      then some (some wal_driver)
      else if is_some d.storage_json
      then some (some json_driver)
      else if any (λ e. e.is_file && not (is_reserved e.name)) d.entries
      then some (some file_driver)
      else none

  -- `none`: no storage; `some none`: storage of a driver that is not read here.
  unfoldable pub detect_driver : Directory → Result Text (Option (Option Driver))
  unfolding read_descriptor_kind legacy_driver
  detect_driver d = read_descriptor_kind d >>= λ kind. elim kind [
    | some k ↦ ok (some (parse_driver k))
    | none ↦ ok (legacy_driver d)
  ]

  unfoldable pub read_wal_driver : Directory → Result Text (Contexts F)
  unfolding read_snapshot read_wal
  read_wal_driver d =
      read_snapshot fmt d.gzipped d.plain >>= λ snapshot. read_wal fmt snapshot (unwrap_or d.wal [])

  unfoldable pub read_contexts : Driver → Directory → Result Text (Contexts F)
  unfolding read_wal_driver read_files
  read_contexts wal_driver d = read_wal_driver d
  read_contexts file_driver d = read_files fmt d.entries []
  read_contexts json_driver d =
      read_json fmt (unwrap_or d.storage_json (err (text "reading storage.json")))

pub record Namespace (F : Type 0) : Type 0 where
  pub name : Text
  pub driver : Driver
  pub contexts : Contexts F

pub data Loaded (F : Type 0) : Type 0 where
  loaded : Namespace F → Loaded F
  unsupported : Text → Loaded F

abbrev pub MatterJsStorage : Type 0 → Type 0
MatterJsStorage F = Map Text (Loaded F)

module _ {N F : Type 0} ⦃num : Numbers N⦄ (fmt : Formats N F) where
  pub load :
      Directory → Option (Option Driver) → MatterJsStorage F → Result Text (MatterJsStorage F)
  unfolding read_contexts read_descriptor_kind
  load d none storage = ok storage
  load d (some (some driver)) storage = read_contexts fmt driver d >>= λ contexts. ok (
      insert d.name (loaded (record { name = d.name; driver = driver; contexts = contexts }))
        storage)
  load d (some none) storage = read_descriptor_kind fmt d >>= λ kind.
      ok (insert d.name (unsupported (unwrap_or kind (text "unknown"))) storage)

  unfoldable pub open_dirs : List Directory → MatterJsStorage F → Result Text (MatterJsStorage F)
  unfolding load detect_driver
  open_dirs [] storage = ok storage
  open_dirs (d ∷ ds) storage =
      (if d.is_dir then (detect_driver fmt d >>= λ driver. load d driver storage) else ok storage)
      >>= λ next. open_dirs ds next

-- The first part of what a path has under the prefix.
pub child_name : Text → Text → Option Text
child_name prefix path =
    if length prefix == 0 && length path == 0
    then none
    else and_then (strip_prefix prefix path) (λ rest. elim (split b'.' rest) [
      | [] ↦ none
      | part ∷ parts ↦ if length part == 0 then none else some part
    ])

pub child_names : Text → List Text → List Text
child_names prefix [] = []
child_names prefix (path ∷ paths) = elim (child_name prefix path) [
  | none ↦ child_names prefix paths
  | some child ↦ child ∷ child_names prefix paths
]

-- `sort` and `dedup`: the names in order, each once.
pub ordered : List Text → Map Text (Unit {0})
ordered [] = []
ordered (name ∷ names) = insert name tt (ordered names)

module _ {F : Type 0} where
  unfoldable pub namespace : Text → MatterJsStorage F → Result Text (Namespace F)
  namespace name storage = elim (get name storage) [
    | none ↦ err (text "no such namespace")
    | some (loaded n) ↦ ok n
    | some (unsupported driver) ↦ err (text "written by another driver: " ++ driver)
  ]

  unfoldable pub has_namespace : Text → MatterJsStorage F → Bool
  has_namespace name storage = elim (get name storage) [
    | none ↦ false
    | some (loaded n) ↦ true
    | some (unsupported driver) ↦ false
  ]

  -- `Namespace::get` and `context`, addressed by a path.
  unfoldable pub context_of : Namespace F → List Text → Option (Map Text (MjValue F))
  context_of n path = get (join (text ".") path) n.contexts

  unfoldable pub value_of : Namespace F → List Text → Text → Option (MjValue F)
  unfolding context_of
  value_of n path key = and_then (context_of n path) (λ c. get key c)

  unfoldable pub child_contexts : Namespace F → List Text → List Text
  unfolding child_name child_names ordered
  child_contexts n path =
      let prefix : Text = elim path [
        | [] ↦ []
        | part ∷ parts ↦ join (text ".") (part ∷ parts) ++ (b'.' ∷ [])
      ] in
      keys (ordered (child_names prefix (keys n.contexts)))
