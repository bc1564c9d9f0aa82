-- ===== src/Matter/Mdns/Query.antt =====
-- server/src/matter/mdns_browser.rs: the query, the name of a node's instance, and the addresses that a
-- browse gives it. The score of an address and its text are parameters.
pub mod Reading
use Prim.Native.Nat.{min}
use Prim.Native.Nat.Ordering.{lt, eq, gt}
use rs_matter_server.Prelude.{
  ℕ, zero, suc, ◌+◌, ◌-◌, ◌≤◌, ◌<◌, ◌≡◌, refl, sym, ◌∙◌, ap, Bool, true, false, ◌||◌, ◌&&◌, Option,
  none, some, List, [], ◌∷◌, ◌++◌, ◌==◌, nat_ord, text_ord, Ord, ltb, leb, length, take, drop,
  get_elem?, keep, if◌then◌else◌, All, arith, ==_iff, Bool-cases, inl, inr, length-append,
  take-length, drop-length, le→leb,
}
use mathlib.Core.List.{append_assoc, append-nil}
use rs_matter_server.Prelude.Text.{Text, text, split, eq_ignore_ascii_case}
use rs_matter_server.Prelude.Text.Utf8.{from_utf8, to_utf8, IsScalar, from_utf8-to_utf8}
use rs_matter_server.Prelude.Text.Hex.{hex16}
use rs_matter_server.Matter.Mdns.{
  NameStep, jump, label, end, truncated, name_step, slice, name_loop, parsed, parse_name, join,
  step_at, label_step, label_of, end_or, name_of,
}
use rs_matter_server.Matter.Mdns.Answers.{IpAddr, ServiceInstance, trim_dots}

unfoldable pub operational_instance_name : ℕ → ℕ → Text
unfolding hex16
operational_instance_name compressed_fabric_id node_id =
    hex16 compressed_fabric_id ++ (b'-' ∷ hex16 node_id)

-- A label longer than 63 bytes is cut.
unfoldable pub encode_labels : List Text → List ℕ
unfolding to_utf8
encode_labels [] = []
encode_labels (l ∷ labels) =
    min (length (to_utf8 l)) 63 ∷ take (min (length (to_utf8 l)) 63) (to_utf8 l)
    ++ encode_labels labels

unfoldable pub encode_name : Text → List ℕ
unfolding encode_labels
encode_name name = encode_labels (split b'.' (trim_dots name)) ++ (0 ∷ [])

-- Twelve bytes of header, one question, type PTR, and the bit that asks for a unicast answer.
unfoldable pub build_query : Text → List ℕ
unfolding encode_name
build_query service =
    (0 ∷ 0 ∷ 0 ∷ 0 ∷ 0 ∷ 1 ∷ 0 ∷ 0 ∷ 0 ∷ 0 ∷ 0 ∷ 0 ∷ [])
    ++ (encode_name service ++ (0 ∷ 12 ∷ 0x80 ∷ 1 ∷ []))

module _ (score : IpAddr → ℕ) (show_address : IpAddr → Text) where
  unfoldable pub goes_before : IpAddr → IpAddr → Bool
  goes_before a b =
      ltb (255 - score a) (255 - score b)
      || (255 - score a == 255 - score b)
        && (elim (text_ord.cmp (show_address a) (show_address b)) [
          | lt ↦ true
          | eq ↦ true
          | gt ↦ false
        ])

  unfoldable pub place_address : IpAddr → List IpAddr → List IpAddr
  place_address a [] = a ∷ []
  place_address a (b ∷ bs) =
      let rest = place_address a bs in if goes_before a b then a ∷ b ∷ bs else b ∷ rest

  -- `sort_by_key` keeps the order of equals.
  unfoldable pub sort_addresses : List IpAddr → List IpAddr
  unfolding place_address
  sort_addresses [] = []
  sort_addresses (a ∷ more) = place_address a (sort_addresses more)

unfoldable pub wanted_addresses : Text → List ServiceInstance → List IpAddr
wanted_addresses wanted [] = []
wanted_addresses wanted (i ∷ more) =
    let rest = wanted_addresses wanted more in
    if eq_ignore_ascii_case i.instance_name wanted then i.addresses ++ rest else rest

unfoldable pub dedup_after : IpAddr → List IpAddr → List IpAddr
dedup_after a [] = []
dedup_after a (b ∷ bs) = let rest = dedup_after b bs in if a == b then rest else b ∷ rest

unfoldable pub dedup_addresses : List IpAddr → List IpAddr
unfolding dedup_after
dedup_addresses [] = []
dedup_addresses (a ∷ more) = a ∷ dedup_after a more

unfoldable pub operational_addresses :
    (IpAddr → ℕ) → (IpAddr → Text) → List ServiceInstance → Text → List IpAddr
unfolding sort_addresses wanted_addresses dedup_addresses
operational_addresses score show_address instances wanted =
    dedup_addresses (sort_addresses score show_address (wanted_addresses wanted instances))
