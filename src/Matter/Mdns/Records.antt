-- ===== src/Matter/Mdns/Records.antt =====
-- server/src/matter/mdns_browser.rs: the records of a packet lie inside it, and so does their data.
use Prim.Native.Nat.{min}
use rs_matter_server.Prelude.{
  ℕ, zero, suc, ◌+◌, ◌-◌, ◌≤◌, ◌≡◌, refl, ◌∙◌, ◌&&◌, if_true, true, false, Option, none, some, List,
  [], nat_ord, leb, ltb, length, drop, if◌then◌else◌, if_either, Option-cases, inl, inr, arith, All,
  length-take, length-drop,
}
use rs_matter_server.Prelude.Text.{Text}
use rs_matter_server.Matter.Mdns.{
  Record, record_at, cons_record, read_records, skip_questions, parse_records, from_be, parse_name,
  record_data, slice_to,
}
use rs_matter_server.Matter.Mdns.Names.{parse_name_moves_on}

-- The record stands in the message after its header, and its data is all there.
abbrev pub IsWhole : List ℕ → Record → Type 0
IsWhole message r =
    (12 ≤ r.data_offset)
    × (r.data_offset + r.data_len ≤ length message)
    × (length (record_data r message) ≡ r.data_len)

abbrev or_empty : Option (List ℕ) → List ℕ
or_empty none = []
or_empty (some bytes) = bytes

slice_to-length :
    (message : List ℕ) (start last : ℕ)
    → start ≤ last
    → last ≤ length message
    → length (or_empty (slice_to message start last)) ≡ last - start
unfolding slice_to
slice_to-length message start last a b =
    if_true (λ o. length (or_empty o) ≡ last - start) (leb start last && leb last (length message))
      _ _ (both start last (length message) a b)
      (omega (arith, length-take (last - start) (drop start message), length-drop start message))
  where
    both : (x y z : ℕ) → x ≤ y → y ≤ z → (leb x y && leb y z) ≡ true
    both x y z a b = ground arith

data-IsWhole :
    (message : List ℕ) (r : Record)
    → r.data_offset + r.data_len ≤ length message
    → length (record_data r message) ≡ r.data_len
unfolding record_data
data-IsWhole message r h =
    let last : ℕ = min (r.data_offset + r.data_len) (length message) in
    let found : length (or_empty (slice_to message r.data_offset last)) ≡ last - r.data_offset =
      slice_to-length message r.data_offset last (omega arith) (omega arith) in
    found ∙ omega arith

abbrev AllWhole : List ℕ → Option (List Record) → Type 0
AllWhole message none = Unit
AllWhole message (some records) = All (IsWhole message) records

cons-AllWhole :
    (message : List ℕ) (r : Record) (o : Option (List Record))
    → IsWhole message r
    → AllWhole message o
    → AllWhole message (cons_record r o)
unfolding cons_record
cons-AllWhole message r none w h = tt
cons-AllWhole message r (some records) w h = (w, h)

not_lt : (n m : ℕ) → ltb n m ≡ false → m ≤ n
not_lt n m h = ground arith

read_records-AllWhole :
    (n : ℕ) (message : List ℕ) (offset : ℕ)
    → 12 ≤ offset
    → AllWhole message (read_records n message offset)
unfolding read_records record_at
read_records-AllWhole zero message offset h = tt
read_records-AllWhole (suc n) message offset h = elim (Option-cases (parse_name message offset)) [
  | inl e ↦ rw (read_records, e) tt
  | inr ((name, next), e) ↦
      rw (read_records, e)
        (record_read n message name next
          (omega (arith, (parse_name_moves_on message offset next name e).0))
          (λ further. read_records-AllWhole n message _ further))
]
  where
    record_read :
        (n : ℕ) (message : List ℕ) (name : Text) (next : ℕ)
        → 13 ≤ next
        → (12 ≤ (record_at message name next).data_offset + (record_at message name next).data_len
            → AllWhole message (
                read_records n message (
                  (record_at message name next).data_offset
                  + (record_at message name next).data_len)))
        → AllWhole message (
            if ltb (length message) (next + 10)
            then some []
            else if ltb
                (length message)
                ((record_at message name next).data_offset + (record_at message name next).data_len)
            then some []
            else cons_record (record_at message name next) (
                read_records n message (
                  (record_at message name next).data_offset
                  + (record_at message name next).data_len)))
    record_read n message name next h rest =
        let r : Record = record_at message name next in
        if_either (AllWhole message) (ltb (length message) (next + 10)) _ _ (λ short. tt)
          (λ long.
            if_either (AllWhole message) (ltb (length message) (r.data_offset + r.data_len)) _ _
              (λ short. tt)
              (λ fits.
                let inside : r.data_offset + r.data_len ≤ length message = not_lt _ _ fits in
                cons-AllWhole message r _ (omega arith, inside, data-IsWhole message r inside)
                  (rest (omega arith))))

skip_questions-moves_on :
    (n : ℕ) (message : List ℕ) (offset next : ℕ)
    → skip_questions n message offset ≡ some next
    → offset ≤ next
unfolding skip_questions
skip_questions-moves_on zero message offset next h = ground arith
skip_questions-moves_on (suc n) message offset next h =
    elim (Option-cases (parse_name message offset)) [
      | inl e ↦ failed_at e
      | inr ((name, m), e) ↦ omega (
        arith,
        (parse_name_moves_on message offset m name e).0,
        skip_questions-moves_on n message (m + 4) next (opened e),
      )
    ]
  where
    failed_at : parse_name message offset ≡ none → offset ≤ next
    failed_at e = let k : none ≡ some next = rw (← h, skip_questions, e) refl in cc

    opened :
        {name : Text} {m : ℕ}
        → parse_name message offset ≡ some (name, m)
        → skip_questions n message (m + 4) ≡ some next
    opened e = rw (← h, skip_questions, e) refl

parse_records-AllWhole : (message : List ℕ) → AllWhole message (parse_records message)
unfolding parse_records
parse_records-AllWhole message =
    let n : ℕ = from_be message 6 + from_be message 8 + from_be message 10 in
    if_either (AllWhole message) (ltb (length message) 12) _ _ (λ short. tt)
      (λ long. elim (Option-cases (skip_questions (from_be message 4) message 12)) [
        | inl e ↦ rw e tt
        | inr (offset, e) ↦ rw e (
            read_records-AllWhole n message offset
              (skip_questions-moves_on (from_be message 4) message 12 offset e))
      ])

-- Every record that is read from a packet, however it was crafted, starts after the packet's header
-- and ends inside the packet, and its data is as long as the record says.
pub parse_records-IsWhole :
    (message : List ℕ) (records : List Record)
    → parse_records message ≡ some records
    → All (IsWhole message) records
parse_records-IsWhole message records h =
    all_of (parse_records message) h (parse_records-AllWhole message)
  where
    some_inj : {a b : List Record} → some a ≡ some b → b ≡ a
    some_inj e = cc

    all_of :
        (o : Option (List Record))
        → o ≡ some records
        → AllWhole message o
        → All (IsWhole message) records
    all_of none e w = cc
    all_of (some rs) e w = rw (some_inj e) w
