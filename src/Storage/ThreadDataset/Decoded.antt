-- ===== src/Storage/ThreadDataset/Decoded.antt =====
-- server/src/storage/thread_dataset.rs: hexadecimal text both ways, and what a decoded dataset says.
use mathlib.Core.List.{foldl}
use rs_matter_server.Prelude.{
  ℕ, ◌%◌, ◌<◌, ◌≡◌, ◌≢◌, ◌∙◌, ap, refl, Bool, true, false, not, ◌&&◌, some, List, [], ◌∷◌, ◌==◌,
  nat_ord, all, length, All, arith, is_some, if◌then◌else◌, Bool-cases, inl, inr,
}
use rs_matter_server.Prelude.Text.{Text}
use rs_matter_server.Prelude.Text.Hex.{
  is_hexdigit, hex_pairs, to_hex_upper, hex_pairs-to_hex_upper, all-is_hexdigit-to_hex_upper,
  length-to_hex_upper, hex_pairs-is_some,
}
use rs_matter_server.Storage.ThreadDataset.{
  Tlv, tlv_pskc, tlv_network_key, tlv_ext_pan_id, OperationalDataset, default, supports_meshcop,
  is_valid_hex, from_hex, ext_pan_id_bytes, apply_tlv, decode_hex, decode,
}
use rs_matter_server.Storage.ThreadDataset.Framing.{Framed, decode_bytes_iff}

abbrev pub AreBytes : List ℕ → Type 0
AreBytes bytes = All (λ b. b < 256) bytes

hex_of_bytes_IsValid :
    (bytes : List ℕ) → bytes ≢ [] → AreBytes bytes → is_valid_hex (to_hex_upper bytes) ≡ true
unfolding is_valid_hex
hex_of_bytes_IsValid [] n h = absurd (n refl)
hex_of_bytes_IsValid (b ∷ bytes) n h =
    rw (all-is_hexdigit-to_hex_upper (b ∷ bytes) h)
      (ground (arith, length-to_hex_upper (b ∷ bytes)))

-- Bytes, at least one, come back from their hexadecimal text.
pub from_hex-to_hex_upper :
    (bytes : List ℕ) → bytes ≢ [] → AreBytes bytes → from_hex (to_hex_upper bytes) ≡ some bytes
unfolding from_hex
from_hex-to_hex_upper bytes n h =
    rw (hex_of_bytes_IsValid bytes n h) (hex_pairs-to_hex_upper bytes h)

valid_parts : (s : Text) → is_valid_hex s ≡ true → (length s % 2 ≡ 0) × (all is_hexdigit s ≡ true)
unfolding is_valid_hex
valid_parts s v = ground arith

-- A text that passes the check of a dataset argument decodes to bytes, and no other does.
pub is_some-from_hex : (s : Text) → is_some (from_hex s) ≡ is_valid_hex s
unfolding from_hex
is_some-from_hex s = elim (Bool-cases (is_valid_hex s)) [
  | inl valid ↦ rw valid (valid_is_some valid)
  | inr invalid ↦ rw invalid refl
]
  where
    valid_is_some : is_valid_hex s ≡ true → is_some (hex_pairs s) ≡ true
    valid_is_some v = let (even, digits) = valid_parts s v in hex_pairs-is_some s digits even

-- Whether the last TLV of type `t` holds a secret that is not all zeros.
abbrev pub last_secret : ℕ → Bool → List Tlv → Bool
last_secret t before [] = before
last_secret t before ((u, value) ∷ tlvs) =
    last_secret t (if u == t then not (all (λ b. b == 0) value) else before) tlvs

has_pskc-apply_tlv :
    (d : OperationalDataset) (u : ℕ) (value : List ℕ)
    → (apply_tlv d (u, value)).has_pskc
      ≡ (if u == tlv_pskc then not (all (λ b. b == 0) value) else d.has_pskc)
unfolding apply_tlv
has_pskc-apply_tlv d u value = ground arith

foldl-has_pskc :
    (d : OperationalDataset) (tlvs : List Tlv)
    → (foldl apply_tlv d tlvs).has_pskc ≡ last_secret tlv_pskc d.has_pskc tlvs
foldl-has_pskc d [] = refl
foldl-has_pskc d ((u, value) ∷ tlvs) =
    foldl-has_pskc (apply_tlv d (u, value)) tlvs
    ∙ ap (λ b. last_secret tlv_pskc b tlvs) (has_pskc-apply_tlv d u value)

has_network_key-apply_tlv :
    (d : OperationalDataset) (u : ℕ) (value : List ℕ)
    → (apply_tlv d (u, value)).has_network_key
      ≡ (if u == tlv_network_key then not (all (λ b. b == 0) value) else d.has_network_key)
unfolding apply_tlv
has_network_key-apply_tlv d u value = ground arith

foldl-has_network_key :
    (d : OperationalDataset) (tlvs : List Tlv)
    → (foldl apply_tlv d tlvs).has_network_key ≡ last_secret tlv_network_key d.has_network_key tlvs
foldl-has_network_key d [] = refl
foldl-has_network_key d ((u, value) ∷ tlvs) =
    foldl-has_network_key (apply_tlv d (u, value)) tlvs
    ∙ ap (λ b. last_secret tlv_network_key b tlvs) (has_network_key-apply_tlv d u value)

-- The hexadecimal text of framed bytes decodes, and the dataset allows MeshCoP exactly when the
-- last PSKc and the last network key in it are there and not all zeros.
pub decode_supports_meshcop :
    (tlvs : List Tlv) (bytes : List ℕ)
    → bytes ≢ []
    → AreBytes bytes
    → Framed tlvs bytes
    → (d : OperationalDataset) × (decode (to_hex_upper bytes) ≡ some d)
      × (supports_meshcop d
          ≡ (last_secret tlv_pskc false tlvs && last_secret tlv_network_key false tlvs))
unfolding decode decode_hex supports_meshcop
decode_supports_meshcop tlvs bytes n h f = (
  foldl apply_tlv default tlvs,
  rw (from_hex-to_hex_upper bytes n h) ((decode_bytes_iff bytes _).1 (tlvs, f, refl)),
  rw (foldl-has_pskc default tlvs) (rw (foldl-has_network_key default tlvs)),
)

-- `ConnectNetwork` gets the bytes that the dataset held: a TLV with an extended PAN id of at least
-- one byte is what `ext_pan_id_bytes` answers after it, and the other types leave that answer alone.
pub ext_pan_id_bytes-apply_tlv :
    (d : OperationalDataset) (t : ℕ) (value : List ℕ)
    → value ≢ []
    → AreBytes value
    → ext_pan_id_bytes (apply_tlv d (t, value))
      ≡ (if t == tlv_ext_pan_id then some value else ext_pan_id_bytes d)
unfolding ext_pan_id_bytes apply_tlv
ext_pan_id_bytes-apply_tlv d t value n h = ground (arith, from_hex-to_hex_upper value n h)
