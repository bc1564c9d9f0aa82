-- ===== src/Storage/ThreadDataset.antt =====
-- server/src/storage/thread_dataset.rs: the Thread operational dataset, a sequence of TLVs in
-- hexadecimal. The slice from the cursor on stands for the cursor.
pub mod Framing
pub mod Decoded
mod Tests
use rs_matter_server.Prelude.{
  ℕ, zero, suc, ◌+◌, ◌*◌, ◌%◌, Bool, true, false, not, ◌&&◌, Option, none, some, List, [], ◌∷◌,
  ◌==◌, nat_ord, leb, all, take, drop, length, if◌then◌else◌,
}
use rs_matter_server.Prelude.Text.{Text}
use rs_matter_server.Prelude.Text.Utf8.{from_utf8}
use rs_matter_server.Prelude.Text.Hex.{is_hexdigit, hex_pairs, to_hex_upper}

-- The TLV types, and the length byte that introduces a 16 bit length.
abbrev pub tlv_ext_pan_id : ℕ
tlv_ext_pan_id = 2

abbrev pub tlv_network_name : ℕ
tlv_network_name = 3

abbrev pub tlv_pskc : ℕ
tlv_pskc = 4

abbrev pub tlv_network_key : ℕ
tlv_network_key = 5

abbrev pub extended_length_marker : ℕ
extended_length_marker = 0xff

pub record OperationalDataset : Type 0 where
  pub network_name : Option Text
  pub ext_pan_id : Option Text
  pub has_pskc : Bool
  pub has_network_key : Bool

abbrev pub default : OperationalDataset
default = record {
  network_name = none;
  ext_pan_id = none;
  has_pskc = false;
  has_network_key = false;
}

unfoldable pub supports_meshcop : OperationalDataset → Bool
supports_meshcop d = d.has_pskc && d.has_network_key

unfoldable pub is_valid_hex : Text → Bool
is_valid_hex s = not (length s == 0) && (length s % 2 == 0 && all is_hexdigit s)

unfoldable pub from_hex : Text → Option (List ℕ)
from_hex s = if is_valid_hex s then hex_pairs s else none

bytes_of : Option Text → Option (List ℕ)
bytes_of none = none
bytes_of (some s) = from_hex s

unfoldable pub ext_pan_id_bytes : OperationalDataset → Option (List ℕ)
unfolding bytes_of
ext_pan_id_bytes d = bytes_of d.ext_pan_id

-- A TLV: its type and its value.
abbrev pub Tlv : Type 0
Tlv = ℕ × List ℕ

-- The value of `length` bytes and what follows it, if the slice holds that many.
take_value : ℕ → ℕ → List ℕ → Option (Tlv × List ℕ)
take_value tlv_type n rest =
    if leb n (length rest) then some ((tlv_type, take n rest), drop n rest) else none

extended : ℕ → List ℕ → Option (Tlv × List ℕ)
extended tlv_type (high ∷ low ∷ rest) = take_value tlv_type (high * 256 + low) rest
extended tlv_type _ = none

-- One round of the loop, up to the match on the type.
next_tlv : List ℕ → Option (Tlv × List ℕ)
unfolding take_value extended
next_tlv (tlv_type ∷ length_byte ∷ rest) =
    if length_byte == extended_length_marker
    then extended tlv_type rest
    else take_value tlv_type length_byte rest
next_tlv _ = none

-- The match on the type. A secret of zeros only does not count as one.
unfoldable pub apply_tlv : OperationalDataset → Tlv → OperationalDataset
apply_tlv d (tlv_type, value) =
    if tlv_type == tlv_network_name
    then record d { network_name = from_utf8 value }
    else if tlv_type == tlv_ext_pan_id
    then record d { ext_pan_id = some (to_hex_upper value) }
    else if tlv_type == tlv_pskc
    then record d { has_pskc = not (all (λ b. b == 0) value) }
    else if tlv_type == tlv_network_key
    then record d { has_network_key = not (all (λ b. b == 0) value) }
    else d

-- The loop. Each round takes two bytes at least, so the slice's length is fuel enough.
decode_loop : ℕ → OperationalDataset → List ℕ → Option OperationalDataset
decode_loop fuel d [] = some d
decode_loop zero d (b ∷ bytes) = none
decode_loop (suc fuel) d (b ∷ bytes) = elim (next_tlv (b ∷ bytes)) [
  | none ↦ none
  | some (tlv, rest) ↦ decode_loop fuel (apply_tlv d tlv) rest
]

unfoldable pub decode_bytes : List ℕ → Option OperationalDataset
unfolding decode_loop next_tlv
decode_bytes bytes = decode_loop (length bytes) default bytes

decode_hex : Option (List ℕ) → Option OperationalDataset
decode_hex none = none
decode_hex (some bytes) = decode_bytes bytes

unfoldable pub decode : Text → Option OperationalDataset
unfolding decode_hex
decode hex_dataset = decode_hex (from_hex hex_dataset)
