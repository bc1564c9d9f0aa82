-- ===== src/Migrate/Tests.antt =====
-- Small documents and logs, and the take-over of one node.
use rs_matter_server.Prelude.{
  text_cmp, ℕ, ◌<◌, ◌≡◌, refl, true, false, Option, none, some, [], ◌∷◌, ◌++◌, ◌==◌, ==_iff,
  nat_ord, text_ord, length, if◌then◌else◌, arith, Bool-cases, inl, inr, ok, none≢some,
}
use rs_matter_server.Prelude.Text.{parse_uint, trim, Text, text}
use rs_matter_server.Prelude.Map.{contains_key, insert, remove, get}
use rs_matter_server.Protocol.Json
use rs_matter_server.Protocol.Json.{Numbers, Value, Fields, Items, nat_numbers}
use rs_matter_server.Migrate.Value.{
  Formats, MjValue, from_json, from_json_str, convert, longest, tag_prefix, value_key,
}
use rs_matter_server.Migrate.Value.Stable.{longest_eq, Quotes, from_json-convert}
use rs_matter_server.Migrate.Store.{apply_commit, apply_ops, apply_op, Contexts}
use rs_matter_server.Migrate.Store.View.{view, acts}
use rs_matter_server.Migrate.Directory.{WalEntry, Segments, wal_segments, read_wal}
use rs_matter_server.Migrate.Directory.Meaning.{log_ops, read_wal-view}
use rs_matter_server.Migrate.Import.{ImportedNode, no_config}
use rs_matter_server.Migrate.Takeover.{Import, Applied, apply_state}
use rs_matter_server.Storage.Nodes.Persistence
use rs_matter_server.Storage.Config.Store
use rs_matter_server.Prelude.Text.Affix.{strip_suffix}
use rs_matter_server.Prelude.Text.Hex.{is_hexdigit}

instance numbers : Numbers ℕ
unfolding nat_numbers
numbers = nat_numbers

-- Documents are told by what they are: a tagged map, a quoted text, or one of three commits.
abbrev quoted : Text
quoted = b'"' ∷ text "x"

abbrev tagged : Value ℕ
tagged = Value.object (
    Fields.field (text "__object__") (Value.string (text "Map"))
      (Fields.field value_key (Value.string quoted) Fields.end))

abbrev document : Text
document = tag_prefix ++ text "Map,..}"

abbrev parse : Text → Option (Value ℕ)
parse s =
    if s == document
    then some tagged
    else elim s [ [] ↦ none | c ∷ rest ↦ if c == b'"' then some (Value.string rest) else none ]

abbrev formats : Formats ℕ ℕ
formats = record {
  as_i64 = λ n. none;
  as_f64 = λ n. n;
  number_text = λ n. [];
  parse_json = parse;
  parse_f64 = λ s. none;
  whole_u64 = λ n. some n;
}

tagged_short : (s : Text) (v : Value ℕ) → s ≡ document → some tagged ≡ some v → longest v < length s
unfolding longest
tagged_short s v e h = rw (e, ← longest_eq tagged v h) (omega arith)

quoted_short :
    (c : ℕ) (rest : Text) (v : Value ℕ)
    → some (Value.string rest) ≡ some v
    → longest v < length (c ∷ rest)
unfolding longest
quoted_short c rest v h = rw (← longest_eq (Value.string rest) v h) (omega arith)

parse-Quotes : Quotes formats
parse-Quotes s v h = elim (Bool-cases (s == document)) [
  | inl e ↦ tagged_short s v ((==_iff s document).0 e) (rw e at h)
  | inr e ↦ text_of s v (rw e at h)
]
  where
    text_of :
        (s : Text) (v : Value ℕ)
        → (elim s [ [] ↦ none | c ∷ rest ↦ if c == b'"' then some (Value.string rest) else none ])
          ≡ some v
        → longest v < length s
    text_of [] v h = cc
    text_of (c ∷ rest) v h = elim (Bool-cases (c == b'"')) [
      | inl e ↦ quoted_short c rest v (rw e at h)
      | inr e ↦ absurd (none≢some (rw e at h))
    ]

from_json-convert_example :
    from_json formats (Value.string document)
    ≡ convert formats (from_json_str formats) (Value.string document)
from_json-convert_example = from_json-convert formats parse-Quotes (Value.string document)

-- Three commits: two that set a value, and one that unsets the first.
abbrev upd : Text → Value ℕ → Value ℕ
upd name v = Value.array (
    Items.cons
      (Value.object (
        Fields.field (text "op") (Value.string (text "upd")) (
          Fields.field (text "key") (Value.string (text "root")) (
            Fields.field (text "values") (Value.object (Fields.field name v Fields.end))
              Fields.end))))
      Items.nil)

abbrev drop_a : Value ℕ
drop_a = Value.array (
    Items.cons
      (Value.object (
        Fields.field (text "op") (Value.string (text "del")) (
          Fields.field (text "key") (Value.string (text "root")) (
            Fields.field (text "values")
              (Value.array (Items.cons (Value.string (text "a")) Items.nil)) Fields.end))))
      Items.nil)

abbrev commit : Text → Option (Value ℕ)
commit s =
    if s == text "1"
    then some (upd (text "a") (Value.bool true))
    else if s == text "2"
    then some (upd (text "b") (Value.bool false))
    else if s == text "3"
    then some drop_a
    else none

abbrev wal : Formats ℕ ℕ
wal = record {
  as_i64 = λ n. none;
  as_f64 = λ n. n;
  number_text = λ n. [];
  parse_json = commit;
  parse_f64 = λ s. none;
  whole_u64 = λ n. some n;
}

abbrev first : WalEntry
first = record {
  name = text "00000001.jsonl";
  is_file = true;
  lines = ok (text "1" ∷ text " " ∷ []);
}

abbrev second : WalEntry
second = record {
  name = text "00000002.jsonl.gz";
  is_file = true;
  lines = ok (text "2" ∷ [] ∷ text "3" ∷ []);
}

abbrev segments : Segments
segments = (1, ok (text "1" ∷ text " " ∷ [])) ∷ (2, ok (text "2" ∷ [] ∷ text "3" ∷ [])) ∷ []

abbrev taken : Contexts ℕ
taken = (text "root", (text "a", MjValue.bool true) ∷ (text "b", MjValue.bool false) ∷ []) ∷ []

abbrev finished : Contexts ℕ
finished = (text "root", (text "b", MjValue.bool false) ∷ []) ∷ []

both_segments : wal_segments (second ∷ first ∷ []) ≡ ok segments
unfolding wal_segments strip_suffix text_cmp is_hexdigit parse_uint contains_key get insert
both_segments = refl

all_read : read_wal wal none (second ∷ first ∷ []) ≡ ok finished
unfolding read_wal strip_suffix text_cmp is_hexdigit parse_uint contains_key get insert trim
    apply_commit Json.get apply_ops apply_op remove from_json convert
all_read = refl

read_wal-view_example : view finished ≡ acts wal (log_ops wal segments) (λ path key. none)
read_wal-view_example =
    read_wal-view wal (second ∷ first ∷ []) segments finished both_segments all_read

abbrev node : ImportedNode
node = record { node_id = 9; commissioned_at = none; fabric_index_on_peer = some 1; addresses = [] }

abbrev import : Import
import = record {
  fabric = record {
    root_cert = [];
    noc = [];
    icac = [];
    operational_key = [];
    ipk_epoch_key = [];
    vendor_id = 65521;
    node_id = 1;
    fabric_id = 1;
    fabric_index = 1;
    label = [];
    issuer_key = [];
    issuer_is_icac = false;
    compressed_fabric_id = none;
  };
  nodes = node ∷ [];
  config = record no_config { next_node_id = some 5; fabric_label = some (text "Home") };
  namespace = text "server";
}

abbrev applied : Applied ℕ
applied =
    apply_state (λ at. text "2026-01-01") true (λ n. true) 0 import Persistence.missing
      Store.missing
