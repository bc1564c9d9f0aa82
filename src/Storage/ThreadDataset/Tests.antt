-- ===== src/Storage/ThreadDataset/Tests.antt =====
-- One dataset of two TLVs.
use rs_matter_server.Prelude.{
  ℕ, ◌≡◌, ◌↔◌, refl, true, false, ◌&&◌, none, some, List, [], ◌∷◌, nat_ord, arith,
}
use mathlib.Core.List.{foldl}
use rs_matter_server.Prelude.Text.Hex.{to_hex_upper}
use rs_matter_server.Storage.ThreadDataset.{
  OperationalDataset, Tlv, default, apply_tlv, decode_bytes, decode, supports_meshcop, tlv_pskc,
  tlv_network_key,
}
use rs_matter_server.Storage.ThreadDataset.Framing.{Framed, done, short, decode_bytes_iff}
use rs_matter_server.Storage.ThreadDataset.Decoded.{last_secret, decode_supports_meshcop}

-- A network key of one byte, which is not zero, and a PSKc of zeros.
abbrev tlvs : List Tlv
tlvs = (5, 1 ∷ []) ∷ (4, 0 ∷ 0 ∷ []) ∷ []

abbrev bytes : List ℕ
bytes = 5 ∷ 1 ∷ 1 ∷ 4 ∷ 2 ∷ 0 ∷ 0 ∷ []

tlvs-Framed : Framed tlvs bytes
tlvs-Framed =
    short 5 1 (1 ∷ []) bytes (4 ∷ 2 ∷ 0 ∷ 0 ∷ []) ((4, 0 ∷ 0 ∷ []) ∷ []) (λ e. omega arith) refl
      refl (short 4 2 (0 ∷ 0 ∷ []) (4 ∷ 2 ∷ 0 ∷ 0 ∷ []) [] [] (λ e. omega arith) refl refl done)

abbrev dataset : OperationalDataset
dataset = record {
  network_name = none;
  ext_pan_id = none;
  has_pskc = false;
  has_network_key = true;
}

decode_bytes_iff_example :
    (decode_bytes bytes ≡ some dataset)
    ↔ ((tlvs : List Tlv) × Framed tlvs bytes × (dataset ≡ foldl apply_tlv default tlvs))
decode_bytes_iff_example = decode_bytes_iff bytes dataset

decode_supports_meshcop_example :
    (d : OperationalDataset) × (decode (to_hex_upper bytes) ≡ some d)
    × (supports_meshcop d
        ≡ (last_secret tlv_pskc false tlvs && last_secret tlv_network_key false tlvs))
decode_supports_meshcop_example =
    decode_supports_meshcop tlvs bytes (λ e. cc)
      (
        omega arith,
        (
          omega arith,
          (omega arith, (omega arith, (omega arith, (omega arith, (omega arith, tt))))),
        ),
      )
      tlvs-Framed
