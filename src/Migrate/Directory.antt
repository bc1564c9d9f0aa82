-- ===== src/Migrate/Directory.antt =====
-- server/src/migrate/store.rs: the three drivers' files. What stands in a directory is an argument:
-- names, whether they are files, and what reading them answers, decompressed.
pub mod Replay
pub mod Meaning
use rs_matter_server.Prelude.{
  and_then, ℕ, suc, ◌+◌, Bool, true, false, not, ◌&&◌, ◌||◌, Option, none, some, List, [], ◌∷◌,
  ◌++◌, ◌==◌, nat_ord, text_ord, any, all, length, ltb, leb, if◌then◌else◌, unwrap_or, is_some, map,
  Result, ok, err, ◌>>=◌,
}
use rs_matter_server.Prelude.Text.{Text, text, trim, split, parse_uint}
use rs_matter_server.Prelude.Text.Hex.{is_hexdigit}
use rs_matter_server.Prelude.Text.Utf8.{from_utf8, to_utf8}
use rs_matter_server.Prelude.Text.Affix.{strip_suffix, ends_with, join}
use rs_matter_server.Prelude.Map.{Map, get, insert, contains_key, keys}
use rs_matter_server.Protocol.Json
use rs_matter_server.Protocol.Json.{Numbers, Value, as_str, as_u64, u64_max}
use rs_matter_server.Migrate.Value.{Formats, MjValue, from_json, from_json_str}
use rs_matter_server.Migrate.Store.{
  Contexts, CommitId, Snapshot, field_list, as_object, put_values, apply_commit,
}

-- One file of the log's directory, with its lines.
pub record WalEntry : Type 0 where
  pub name : Text
  pub is_file : Bool
  pub lines : Result Text (List Text)

abbrev pub Segments : Type 0
Segments = Map ℕ (Result Text (List Text))

-- The digits of a segment's name, and whether it is the compressed copy.
unfoldable pub segment_name : Text → Option (Text × Bool)
segment_name name = elim (strip_suffix (text ".jsonl.gz") name) [
  | some digits ↦ some (digits, true)
  | none ↦ elim (strip_suffix (text ".jsonl") name) [
    | some digits ↦ some (digits, false)
    | none ↦ none
  ]
]

unfoldable pub segment_number : Text → Bool → Result Text (Option (ℕ × Bool))
segment_number digits compressed =
    if length digits == 8 && all is_hexdigit digits
    then elim (parse_uint 16 u64_max digits) [
      | none ↦ err (text "invalid segment number")
      | some segment ↦ ok (some (segment, compressed))
    ]
    else ok none

unfoldable pub segment_of : WalEntry → Result Text (Option (ℕ × Bool))
unfolding segment_name segment_number
segment_of e =
    if e.is_file
    then elim (segment_name e.name) [
      | none ↦ ok none
      | some (digits, compressed) ↦ segment_number digits compressed
    ]
    else ok none

-- The compressed copy of a segment is preferred.
unfoldable pub place : Option (ℕ × Bool) → WalEntry → Segments → Segments
place none e segments = segments
place (some (segment, compressed)) e segments =
    if compressed || not (contains_key segment segments)
    then insert segment e.lines segments
    else segments

unfoldable pub collect_segments : List WalEntry → Segments → Result Text Segments
unfolding segment_of place
collect_segments [] segments = ok segments
collect_segments (e ∷ es) segments =
    segment_of e >>= λ found. collect_segments es (place found e segments)

unfoldable pub wal_segments : List WalEntry → Result Text Segments
unfolding collect_segments
wal_segments entries = collect_segments entries []

-- What the snapshot already has: `(segment, offset) <= (snap_segment, snap_offset)`.
unfoldable pub covered : Option CommitId → ℕ → ℕ → Bool
covered none segment offset = false
covered (some (snap_segment, snap_offset)) segment offset =
    ltb segment snap_segment || segment == snap_segment && leb offset snap_offset

module _ {N F : Type 0} ⦃num : Numbers N⦄ (fmt : Formats N F) where
  -- Offsets count blank lines too.
  unfoldable pub replay_line : Option CommitId → ℕ → ℕ → Text → Contexts F → Contexts F
  unfolding covered
  replay_line after segment offset line contexts =
      if covered after segment offset || length (trim line) == 0
      then contexts
      else apply_commit fmt line contexts

  unfoldable pub replay_lines : Option CommitId → ℕ → ℕ → List Text → Contexts F → Contexts F
  unfolding replay_line
  replay_lines after segment offset [] contexts = contexts
  replay_lines after segment offset (line ∷ lines) contexts =
      replay_lines after segment (suc offset) lines (replay_line after segment offset line contexts)

  unfoldable pub replay : Option CommitId → Segments → Contexts F → Result Text (Contexts F)
  unfolding replay_lines
  replay after [] contexts = ok contexts
  replay after ((segment, file) ∷ segments) contexts =
      file >>= λ lines. replay after segments (replay_lines after segment 0 lines contexts)

  unfoldable pub read_wal : Option (Snapshot F) → List WalEntry → Result Text (Contexts F)
  unfolding wal_segments replay
  read_wal none entries = wal_segments entries >>= λ segments. replay none segments []
  read_wal (some snapshot) entries =
      wal_segments entries >>= λ segments. replay snapshot.commit_id segments snapshot.contexts

  -- `{context: {key: value}}`.
  pub store_fields : List (Text × Value N) → Contexts F → Contexts F
  store_fields [] contexts = contexts
  store_fields ((context, values) ∷ more) contexts = elim (as_object values) [
    | none ↦ store_fields more contexts
    | some fields ↦
        store_fields more
          (insert context (put_values fmt fields (unwrap_or (get context contexts) [])) contexts)
  ]

  unfoldable pub store_data : Value N → Contexts F
  unfolding store_fields
  store_data raw = elim (as_object raw) [ none ↦ [] | some fields ↦ store_fields fields [] ]

  unfoldable pub commit_id : Value N → Option CommitId
  commit_id raw = and_then (Json.get (text "commitId") raw) (λ id.
      and_then (and_then (Json.get (text "segment") id) as_u64) (λ segment.
        and_then (Json.get (text "offset") id)
          (λ offset. some (segment, unwrap_or (as_u64 offset) 0))))

  unfoldable pub parse_snapshot : Text → Result Text (Snapshot F)
  unfolding store_data commit_id
  parse_snapshot document = elim (fmt.parse_json document) [
    | none ↦ err (text "parsing the snapshot")
    | some raw ↦ elim (Json.get (text "data") raw) [
      | none ↦ err (text "the snapshot has no data")
      | some content ↦ ok (record { contexts = store_data content; commit_id = commit_id raw })
    ]
  ]

-- A file: when it was modified, where that is known, and what reading it answers.
pub record StoredFile : Type 0 where
  pub modified : Option ℕ
  pub document : Result Text Text

unfoldable pub is_newer : StoredFile → StoredFile → Bool
is_newer a b = elim a.modified [
  | none ↦ true
  | some x ↦ elim b.modified [ none ↦ true | some y ↦ leb y x ]
]

-- Both can exist; the newer is taken.
unfoldable pub snapshot_source : Option StoredFile → Option StoredFile → Option StoredFile
unfolding is_newer
snapshot_source (some gzipped) (some plain) =
    some (if is_newer gzipped plain then gzipped else plain)
snapshot_source (some gzipped) none = some gzipped
snapshot_source none plain = plain

module _ {N F : Type 0} ⦃num : Numbers N⦄ (fmt : Formats N F) where
  unfoldable pub read_snapshot :
      Option StoredFile → Option StoredFile → Result Text (Option (Snapshot F))
  unfolding snapshot_source parse_snapshot
  read_snapshot gzipped plain = elim (snapshot_source gzipped plain) [
    | none ↦ ok none
    | some source ↦ source.document >>= λ document. parse_snapshot fmt document >>= λ s. ok (some s)
  ]

  unfoldable pub read_json : Result Text Text → Result Text (Contexts F)
  unfolding store_data
  read_json file = file >>= λ document. elim (fmt.parse_json document) [
    | none ↦ err (text "parsing storage.json")
    | some raw ↦ ok (store_data fmt raw)
  ]
