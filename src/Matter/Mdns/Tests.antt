-- ===== src/Matter/Mdns/Tests.antt =====
-- The packet reader's theorems at small packets.
use rs_matter_server.Prelude.{
  text_cmp, ℕ, suc, ◌+◌, ◌≡◌, refl, true, none, some, List, [], ◌∷◌, All, length, arith, inl,
}
use rs_matter_server.Prelude.Text.{to_ascii_lowercase, Text, text, split}
use rs_matter_server.Matter.Mdns.Answers.{browsed, trim_dots}
use rs_matter_server.Matter.Mdns.Answers.Tidy.{Grows, browsed-Grows}
use rs_matter_server.Matter.Mdns.Query.{build_query, encode_name}
use rs_matter_server.Matter.Mdns.Query.Reading.{IsLabel, parse_name-build_query}
use rs_matter_server.Prelude.Text.Utf8.{to_utf8, from_utf8}
use rs_matter_server.Matter.Mdns.{
  record_data, Record, parse_records, skip_questions, read_records, parse_name, name_loop,
  name_step, slice, from_be, byte, join,
}
use rs_matter_server.Matter.Mdns.Names.{is_finished, parse_name_finishes}
use rs_matter_server.Matter.Mdns.Records.{IsWhole, parse_records-IsWhole}
use rs_matter_server.Prelude.Map.{get, insert}
use rs_matter_server.Prelude.Text.Affix.{ends_with}

-- A name that points at itself, and a packet of one record with one byte of data.
abbrev looping : List ℕ
looping = 0xc0 ∷ 0 ∷ []

abbrev packet : List ℕ
packet =
    0 ∷ 0 ∷ 0 ∷ 0 ∷ 0 ∷ 0 ∷ 0 ∷ 1 ∷ 0 ∷ 0 ∷ 0 ∷ 0 ∷ 1 ∷ 97 ∷ 0 ∷ 0 ∷ 16 ∷ 0 ∷ 1 ∷ 0 ∷ 0 ∷ 0 ∷ 0 ∷ 0
    ∷ 1 ∷ 7 ∷ []

abbrev records : List Record
records = record { name = text "a"; record_type = 16; data_offset = 25; data_len = 1 } ∷ []

read : parse_records packet ≡ some records
unfolding parse_records skip_questions read_records parse_name name_loop name_step slice from_be
    byte join from_utf8
read = refl

parse_name_finishes_example :
    is_finished (name_loop looping 16 (suc (length looping)) [] none 0) ≡ true
parse_name_finishes_example = parse_name_finishes looping 0

parse_records-IsWhole_example : All (IsWhole packet) records
parse_records-IsWhole_example = parse_records-IsWhole packet records read

-- A service with one instance, whose SRV record names a host that has an address twice.
abbrev service : Text
service = text "_m.local."

abbrev answer : List ℕ
answer =
    0 ∷ 0 ∷ 0 ∷ 0 ∷ 0 ∷ 0 ∷ 0 ∷ 3 ∷ 0 ∷ 0 ∷ 0 ∷ 0 ∷ 1 ∷ 105 ∷ 2 ∷ 95 ∷ 109 ∷ 5 ∷ 108 ∷ 111 ∷ 99 ∷ 97
    ∷ 108 ∷ 0 ∷ 0 ∷ 33 ∷ 0 ∷ 1 ∷ 0 ∷ 0 ∷ 0 ∷ 0 ∷ 0 ∷ 9 ∷ 0 ∷ 0 ∷ 0 ∷ 0 ∷ 21 ∷ 164 ∷ 1 ∷ 104 ∷ 0 ∷ 1
    ∷ 104 ∷ 0 ∷ 0 ∷ 1 ∷ 0 ∷ 1 ∷ 0 ∷ 0 ∷ 0 ∷ 0 ∷ 0 ∷ 4 ∷ 10 ∷ 0 ∷ 0 ∷ 1 ∷ 1 ∷ 104 ∷ 0 ∷ 0 ∷ 1 ∷ 0 ∷ 1
    ∷ 0 ∷ 0 ∷ 0 ∷ 0 ∷ 0 ∷ 4 ∷ 10 ∷ 0 ∷ 0 ∷ 1 ∷ []

one_address :
    browsed service (answer ∷ answer ∷ []) []
    ≡ (
      text "i._m.local",
      record {
        instance_name = text "i";
        host_name = some (text "h");
        port = some 5540;
        addresses = (10 ∷ 0 ∷ 0 ∷ 1 ∷ []) ∷ [];
        txt = [];
      },
    )
      ∷ []
unfolding browsed parse_records skip_questions read_records parse_name name_step slice from_utf8
    record_data get ends_with to_ascii_lowercase trim_dots join text_cmp insert
one_address = refl

browsed-Grows_example : Grows [] (browsed service (answer ∷ answer ∷ []) [])
browsed-Grows_example =
    browsed-Grows service (answer ∷ answer ∷ []) [] (record { sorted = tt; distinct = tt })

service-IsLabel : All IsLabel (split b'.' (trim_dots service))
unfolding split trim_dots to_utf8
service-IsLabel = (
  ((inl (omega arith), (inl (omega arith), tt)), (omega arith, omega arith)),
  (
    (
      (
        inl (omega arith),
        (inl (omega arith), (inl (omega arith), (inl (omega arith), (inl (omega arith), tt)))),
      ),
      (omega arith, omega arith),
    ),
    tt,
  ),
)

parse_name-build_query_example :
    parse_name (build_query service) 12
    ≡ some (trim_dots service, 12 + length (encode_name service))
parse_name-build_query_example = parse_name-build_query service service-IsLabel
