-- ===== src/Matter/Mdns/Answers.antt =====
-- server/src/matter/mdns_browser.rs: folding the records of a packet into the instances that a browse
-- found. An address is its bytes, four of them or sixteen.
pub mod Tidy
use mathlib.Core.List.{reverse}
use rs_matter_server.Prelude.{
  ℕ, ◌+◌, ◌-◌, ◌*◌, ◌^◌, Bool, true, false, not, ◌||◌, ◌&&◌, Option, none, some, List, [], ◌∷◌,
  ◌++◌, ◌==◌, nat_ord, text_ord, any, keep, ltb, leb, length, take, drop, if◌then◌else◌, unwrap_or,
  and_then, or_else, is_some,
}
use rs_matter_server.Prelude.Text.{
  Text, text, trim, lower, to_ascii_lowercase, eq_ignore_ascii_case, parse_uint,
}
use rs_matter_server.Prelude.Text.Utf8.{from_utf8}
use rs_matter_server.Prelude.Text.Hex.{to_hex_upper}
use rs_matter_server.Prelude.Text.Affix.{ends_with, strip_prefix}
use rs_matter_server.Prelude.Map.{Map, get, insert, extend}
use rs_matter_server.Matter.Mdns.{Record, parse_records, parse_name, record_data, byte, from_be}
use rs_matter_server.Matter.Mdns.Txt.{parse_txt}

abbrev pub IpAddr : Type 0
IpAddr = List ℕ

pub record ServiceInstance : Type 0 where
  pub instance_name : Text
  pub host_name : Option Text
  pub port : Option ℕ
  pub addresses : List IpAddr
  pub txt : Map Text (List ℕ)

abbrev pub Instances : Type 0
Instances = Map Text ServiceInstance

unfoldable pub txt_str : Text → ServiceInstance → Option Text
txt_str key i = and_then (get key i.txt) from_utf8

unfoldable pub txt_hex : Text → ServiceInstance → Option Text
txt_hex key i =
    and_then (get key i.txt)
      (λ value. if length value == 0 then none else some (to_hex_upper value))

unfoldable pub txt_u32 : Text → ServiceInstance → Option ℕ
unfolding txt_str
txt_u32 key i = and_then (txt_str key i) (λ value.
    elim (or_else (strip_prefix (text "0x") (trim value)) (strip_prefix (text "0X") (trim value))) [
      | some hex ↦ parse_uint 16 (2 ^ 32 - 1) hex
      | none ↦ parse_uint 10 (2 ^ 32 - 1) (trim value)
    ])

drop_dots : Text → Text
drop_dots [] = []
drop_dots (c ∷ s) = if c == b'.' then drop_dots s else c ∷ s

-- `trim_end_matches('.')`.
unfoldable pub trim_dots : Text → Text
unfolding drop_dots
trim_dots s = reverse (drop_dots (reverse s))

unfoldable pub has_suffix : Text → Text → Bool
has_suffix name suffix = ends_with (to_ascii_lowercase name) (to_ascii_lowercase suffix)

unfoldable pub label_without : Text → Text → Text
unfolding has_suffix
label_without name suffix =
    if has_suffix name suffix then take (length name - length suffix) name else name

unfoldable pub fresh : Text → Text → ServiceInstance
unfolding label_without
fresh name suffix = record {
  instance_name = label_without name suffix;
  host_name = none;
  port = none;
  addresses = [];
  txt = [];
}

-- `entry(name).or_insert_with(..)`.
unfoldable pub entry_or : Text → Text → Instances → ServiceInstance
unfolding fresh
entry_or suffix name instances = unwrap_or (get name instances) (fresh name suffix)

-- The instances, and the instance that an SRV record named a host for.
pub record Answers : Type 0 where
  pub instances : Instances
  pub host_to_instance : Map Text Text

-- The only instance there is.
abbrev pub only : Instances → Option Text
only ((name, i) ∷ []) = some name
only _ = none

unfoldable pub put_address : IpAddr → ServiceInstance → ServiceInstance
put_address address i =
    if any (λ known. known == address) i.addresses
    then i
    else record i { addresses = i.addresses ++ (address ∷ []) }

module _ (message : List ℕ) (service : Text) where
  abbrev pub name_at : ℕ → Option Text
  name_at offset = and_then (parse_name message offset) (λ found. some found.0)

  abbrev pub suffix : Text
  suffix = b'.' ∷ trim_dots service

  pub add_pointer : Record → Answers → Answers
  unfolding entry_or
  add_pointer r a =
      if eq_ignore_ascii_case r.name (trim_dots service)
      then elim (name_at r.data_offset) [
        | none ↦ a
        | some target ↦ record a {
          instances = insert target (entry_or suffix target a.instances) a.instances;
        }
      ]
      else a

  pub add_service : Record → Answers → Answers
  unfolding entry_or has_suffix from_be
  add_service r a =
      let bytes = record_data r message in
      let entry = record (entry_or suffix r.name a.instances) { port = some (from_be bytes 4) } in
      if not (has_suffix r.name suffix) || ltb (length bytes) 6
      then a
      else elim (name_at (r.data_offset + 6)) [
        | none ↦ record a { instances = insert r.name entry a.instances }
        | some target ↦ record {
          instances =
              insert r.name (record entry { host_name = some (trim_dots target) }) a.instances;
          host_to_instance = insert (to_ascii_lowercase target) r.name a.host_to_instance;
        }
      ]

  pub add_text : Record → Answers → Answers
  unfolding entry_or has_suffix
  add_text r a =
      let entry = entry_or suffix r.name a.instances in
      if has_suffix r.name suffix
      then record a {
        instances =
            insert r.name
              (record entry { txt = extend entry.txt (parse_txt (record_data r message)) })
              a.instances;
      }
      else a

  unfoldable pub add_record : Record → Answers → Answers
  unfolding add_pointer add_service add_text
  add_record r a =
      if r.record_type == 12
      then add_pointer r a
      else if r.record_type == 33
      then add_service r a
      else if r.record_type == 16
      then add_text r a
      else a

  unfoldable pub add_records : List Record → Answers → Answers
  unfolding add_record
  add_records [] a = a
  add_records (r ∷ rs) a = add_records rs (add_record r a)

  unfoldable pub address_in : Record → Option IpAddr
  address_in r =
      let bytes = record_data r message in
      if r.record_type == 1
      then (if ltb (length bytes) 4 then none else some (take 4 bytes))
      else if r.record_type == 28
      then (if ltb (length bytes) 16 then none else some (take 16 bytes))
      else none

  -- The instance whose SRV named the host, or the only one there is.
  unfoldable pub target_of : Record → Answers → Option Text
  target_of r a = or_else (get (to_ascii_lowercase r.name) a.host_to_instance) (only a.instances)

  unfoldable pub add_address : Record → Answers → Answers
  unfolding address_in target_of put_address
  add_address r a = elim (address_in r) [
    | none ↦ a
    | some address ↦ elim (target_of r a) [
      | none ↦ a
      | some target ↦ elim (get target a.instances) [
        | none ↦ a
        | some i ↦ record a { instances = insert target (put_address address i) a.instances }
      ]
    ]
  ]

  unfoldable pub add_addresses : List Record → Answers → Answers
  unfolding add_address
  add_addresses [] a = a
  add_addresses (r ∷ rs) a = add_addresses rs (add_address r a)

  -- Names, ports and texts first, then addresses by the names of hosts.
  unfoldable pub collect_answers : Instances → Instances
  unfolding add_records add_addresses
  collect_answers instances = elim (parse_records message) [
    | none ↦ instances
    | some records ↦
        (add_addresses records
          (add_records records (record { instances = instances; host_to_instance = [] }))).instances
  ]

-- What a browse answers: an instance with neither port nor address was only referred to.
unfoldable pub usable : List ServiceInstance → List ServiceInstance
usable instances = keep (λ i. is_some i.port || not (length i.addresses == 0)) instances

-- The packets of one browse, in the order in which they arrive.
unfoldable pub browsed : Text → List (List ℕ) → Instances → Instances
unfolding collect_answers
browsed service [] instances = instances
browsed service (message ∷ messages) instances =
    browsed service messages (collect_answers message service instances)
