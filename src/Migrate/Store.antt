-- ===== src/Migrate/Store.antt =====
-- server/src/migrate/store.rs: a matterjs-server storage directory. What stands in the directory is an
-- argument: the entries' names, whether they are files, and what reading them answers.
pub mod View
use rs_matter_server.Prelude.{
  and_then, ℕ, suc, ◌+◌, Bool, true, false, not, ◌&&◌, ◌||◌, Option, none, some, List, [], ◌∷◌,
  ◌++◌, ◌==◌, nat_ord, text_ord, any, all, length, ltb, leb, if◌then◌else◌, unwrap_or, is_some, map,
  Result, ok, err, ◌>>=◌,
}
use rs_matter_server.Prelude.Text.{Text, text, trim, split, parse_uint}
use rs_matter_server.Prelude.Text.Hex.{is_hexdigit}
use rs_matter_server.Prelude.Text.Affix.{starts_with, strip_suffix, strip_prefix, join}
use rs_matter_server.Prelude.Map.{Map, get, insert, remove, retain, keys}
use rs_matter_server.Protocol.Json
use rs_matter_server.Protocol.Json.{Numbers, Value, Fields, as_str, as_array, as_u64, u64_max}
use rs_matter_server.Migrate.Value.{Formats, MjValue, from_json}

pub data Driver : Type 0 where
  wal_driver file_driver json_driver : Driver

unfoldable pub parse_driver : Text → Option Driver
parse_driver kind =
    if kind == text "wal"
    then some wal_driver
    else if kind == text "file"
    then some file_driver
    else if kind == text "json"
    then some json_driver
    else none

abbrev pub Contexts : Type 0 → Type 0
Contexts F = Map Text (Map Text (MjValue F))

-- A position in the log: the segment and the line within it.
abbrev pub CommitId : Type 0
CommitId = ℕ × ℕ

pub record Snapshot (F : Type 0) : Type 0 where
  pub contexts : Contexts F
  pub commit_id : Option CommitId

module _ {N : Type 0} where
  abbrev pub field_list : Fields N → List (Text × Value N)
  field_list Fields.end = []
  field_list (Fields.field k v fs) = (k, v) ∷ field_list fs

  abbrev pub as_object : Value N → Option (List (Text × Value N))
  as_object (Value.object fs) = some (field_list fs)
  as_object _ = none

  -- The names among a list of values.
  abbrev pub names_of : List (Value N) → List Text
  names_of [] = []
  names_of (v ∷ vs) = elim (as_str v) [ none ↦ names_of vs | some s ↦ s ∷ names_of vs ]

  abbrev pub operations : Value N → Option (List (Value N))
  operations commit = as_array (unwrap_or (Json.get (text "ops") commit) commit)

module _ {F : Type 0} where
  unfoldable pub remove_each : List Text → Map Text (MjValue F) → Map Text (MjValue F)
  remove_each [] context = context
  remove_each (name ∷ names) context = remove_each names (remove name context)

  unfoldable pub delete_names : Text → List Text → Contexts F → Contexts F
  unfolding remove_each
  delete_names key names contexts = elim (get key contexts) [
    | none ↦ contexts
    | some context ↦ insert key (remove_each names context) contexts
  ]

  -- A context and everything beneath it or, with no key, the whole namespace.
  unfoldable pub delete_tree : Text → Contexts F → Contexts F
  delete_tree key contexts =
      if length key == 0
      then []
      else retain (λ path _. not (starts_with path (key ++ (b'.' ∷ [])))) (remove key contexts)

module _ {N F : Type 0} ⦃num : Numbers N⦄ (fmt : Formats N F) where
  unfoldable pub put_values : List (Text × Value N) → Map Text (MjValue F) → Map Text (MjValue F)
  put_values [] context = context
  put_values ((name, value) ∷ more) context =
      put_values more (insert name (from_json fmt value) context)

  unfoldable pub update_context : Text → List (Text × Value N) → Contexts F → Contexts F
  unfolding put_values
  update_context key values contexts =
      insert key (put_values values (unwrap_or (get key contexts) [])) contexts

  abbrev pub op_key : Value N → Text
  op_key op = unwrap_or (and_then (Json.get (text "key") op) as_str) []

  pub apply_update : Value N → Contexts F → Contexts F
  unfolding update_context
  apply_update op contexts = elim (and_then (Json.get (text "values") op) as_object) [
    | none ↦ contexts
    | some values ↦ update_context (op_key op) values contexts
  ]

  pub apply_delete : Value N → Contexts F → Contexts F
  unfolding delete_names delete_tree
  apply_delete op contexts = elim (and_then (Json.get (text "values") op) as_array) [
    | none ↦ delete_tree (op_key op) contexts
    | some names ↦ delete_names (op_key op) (names_of names) contexts
  ]

  unfoldable pub apply_op : Value N → Contexts F → Contexts F
  unfolding apply_update apply_delete
  apply_op op contexts = elim (and_then (Json.get (text "op") op) as_str) [
    | none ↦ contexts
    | some kind ↦
        if kind == text "upd"
        then apply_update op contexts
        else if kind == text "del"
        then apply_delete op contexts
        else contexts
  ]

  unfoldable pub apply_ops : List (Value N) → Contexts F → Contexts F
  apply_ops [] contexts = contexts
  apply_ops (op ∷ ops) contexts = apply_ops ops (apply_op op contexts)

  -- A line that is no JSON is skipped.
  unfoldable pub apply_commit : Text → Contexts F → Contexts F
  apply_commit line contexts = elim (and_then (fmt.parse_json line) operations) [
    | none ↦ contexts
    | some ops ↦ apply_ops ops contexts
  ]
