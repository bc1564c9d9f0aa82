-- ===== src/Matter/Mdns.antt =====
-- server/src/matter/mdns_browser.rs: reading the packets that mDNS responders send, which may be
-- crafted. Bytes are numbers below 256.
pub mod Names
pub mod Records
pub mod Txt
pub mod Answers
pub mod Query
mod Tests
use Prim.Native.Nat.{min}
use rs_matter_server.Prelude.{
  ℕ, zero, suc, ◌+◌, ◌*◌, ◌%◌, Bool, true, false, not, ◌||◌, ◌&&◌, ◌-◌, Option, none, some, List,
  [], ◌∷◌, ◌++◌, ◌==◌, nat_ord, text_ord, ltb, leb, get_elem?, length, take, drop, if◌then◌else◌,
}
use rs_matter_server.Prelude.Text.{Text, text}
use rs_matter_server.Prelude.Text.Utf8.{from_utf8}
use rs_matter_server.Prelude.Map.{Map, insert}

-- `labels.join(".")`.
unfoldable pub join : List Text → Text
join [] = []
join (label ∷ []) = label
join (label ∷ next ∷ labels) = label ++ (b'.' ∷ join (next ∷ labels))

-- `message.get(start..start + n)`, for a start that may be past the end.
unfoldable pub slice : List ℕ → ℕ → ℕ → Option (List ℕ)
slice message start n =
    if leb (start + n) (length message) then some (take n (drop start message)) else none

-- What stands at an offset within a name.
pub data NameStep : Type 0 where
  jump : ℕ → NameStep
  label : Text → ℕ → NameStep
  end truncated : NameStep

pointer_step : ℕ → Option ℕ → NameStep
pointer_step high none = truncated
pointer_step high (some low) = jump ((high % 64) * 256 + low)

label_of : ℕ → Option Text → NameStep
label_of next none = truncated
label_of next (some l) = label l next

label_step : ℕ → Option (List ℕ) → NameStep
unfolding label_of
label_step next none = truncated
label_step next (some bytes) = label_of next (from_utf8 bytes)

step_at : List ℕ → ℕ → Option ℕ → NameStep
unfolding pointer_step label_step
step_at message offset none = truncated
step_at message offset (some n) =
    if leb 0xc0 n
    then pointer_step n (get_elem? message (offset + 1))
    else if n == 0
    then end
    else label_step (offset + 1 + n) (slice message (offset + 1) n)

unfoldable pub name_step : List ℕ → ℕ → NameStep
unfolding step_at
name_step message offset = step_at message offset (get_elem? message offset)

-- What the loop ends in; `unfinished` is running out of fuel, which the code has none of.
pub data Parsed : Type 0 where
  parsed : Text → ℕ → Parsed
  failed unfinished : Parsed

-- Where the encoded form ends: at the first pointer, or at the terminator.
end_or : Option ℕ → ℕ → ℕ
end_or none offset = offset
end_or (some e) offset = e

-- The loop, with the jumps that are left, and, since the last jump, fuel for the labels, each of
-- which takes two bytes of the message at least.
unfoldable pub name_loop : List ℕ → ℕ → ℕ → List Text → Option ℕ → ℕ → Parsed
unfolding end_or
name_loop message jumps zero labels end_of_name offset = unfinished
name_loop message zero (suc fuel) labels end_of_name offset = elim (name_step message offset) [
  | truncated ↦ failed
  | end ↦ parsed (join labels) (end_or end_of_name (offset + 1))
  | label l next ↦ name_loop message zero fuel (labels ++ (l ∷ [])) end_of_name next
  | jump pointer ↦ failed
]
name_loop message (suc left) (suc fuel) labels end_of_name offset =
    elim (name_step message offset) [
      | truncated ↦ failed
      | end ↦ parsed (join labels) (end_or end_of_name (offset + 1))
      | label l next ↦ name_loop message (suc left) fuel (labels ++ (l ∷ [])) end_of_name next
      | jump pointer ↦
          name_loop message left (suc (length message)) labels
            (some (end_or end_of_name (offset + 2))) pointer
    ]

name_of : Parsed → Option (Text × ℕ)
name_of (parsed name next) = some (name, next)
name_of failed = none
name_of unfinished = none

-- Sixteen jumps are followed.
unfoldable pub parse_name : List ℕ → ℕ → Option (Text × ℕ)
unfolding name_loop name_of
parse_name message offset = name_of (name_loop message 16 (suc (length message)) [] none offset)

-- `message.get(start..end)`.
slice_to : List ℕ → ℕ → ℕ → Option (List ℕ)
slice_to message start last =
    if leb start last && leb last (length message)
    then some (take (last - start) (drop start message))
    else none

pub record Record : Type 0 where
  pub name : Text
  pub record_type : ℕ
  pub data_offset : ℕ
  pub data_len : ℕ

-- `message[i]`, where the code has checked that there is such a byte.
unfoldable pub byte : List ℕ → ℕ → ℕ
byte message i = elim (get_elem? message i) [ none ↦ 0 | some b ↦ b ]

unfoldable pub from_be : List ℕ → ℕ → ℕ
unfolding byte
from_be message i = byte message i * 256 + byte message (i + 1)

-- Past the questions.
unfoldable pub skip_questions : ℕ → List ℕ → ℕ → Option ℕ
skip_questions zero message offset = some offset
skip_questions (suc n) message offset = elim (parse_name message offset) [
  | none ↦ none
  | some (name, next) ↦ skip_questions n message (next + 4)
]

record_at : List ℕ → Text → ℕ → Record
unfolding from_be
record_at message name next = record {
  name = name;
  record_type = from_be message next;
  data_offset = next + 10;
  data_len = from_be message (next + 8);
}

cons_record : Record → Option (List Record) → Option (List Record)
cons_record r none = none
cons_record r (some records) = some (r ∷ records)

-- A record that does not fit ends the walk with what was read; a name that cannot be read fails it.
unfoldable pub read_records : ℕ → List ℕ → ℕ → Option (List Record)
unfolding record_at cons_record
read_records zero message offset = some []
read_records (suc n) message offset = elim (parse_name message offset) [
  | none ↦ none
  | some (name, next) ↦
      let r : Record = record_at message name next in
      let rest = read_records n message (r.data_offset + r.data_len) in
      if ltb (length message) (next + 10)
      then some []
      else if ltb (length message) (r.data_offset + r.data_len)
      then some []
      else cons_record r rest
]

unfoldable pub parse_records : List ℕ → Option (List Record)
unfolding from_be
parse_records message =
    if ltb (length message) 12 then none else elim (skip_questions (from_be message 4) message 12) [
      | none ↦ none
      | some offset ↦
          read_records (from_be message 6 + from_be message 8 + from_be message 10) message offset
    ]

-- `Record::data`.
unfoldable pub record_data : Record → List ℕ → List ℕ
unfolding slice_to
record_data r message =
    elim (slice_to message r.data_offset (min (r.data_offset + r.data_len) (length message))) [
      | none ↦ []
      | some bytes ↦ bytes
    ]
