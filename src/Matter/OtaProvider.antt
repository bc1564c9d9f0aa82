-- ===== src/Matter/OtaProvider.antt =====
-- server/src/matter/ota_provider.rs: the names under which devices download images.
use mathlib.Core.List.{append_assoc}
use rs_matter_server.Prelude.{
  ℕ, ◌-◌, ◌≤◌, ◌<◌, ◌≡◌, refl, true, Option, none, some, List, [], ◌∷◌, ◌++◌, nat_ord, text_ord,
  leb, arith, length, length-append, take-length, drop-length, ==-refl, le→leb, if_true, All,
  All-append,
}
use rs_matter_server.Prelude.Text.{Text, text, split, parse_uint, show}
use rs_matter_server.Prelude.Text.Affix.{strip_suffix}
use rs_matter_server.Prelude.Text.Utf8.{from_utf8, from_utf8_ascii}
use rs_matter_server.Prelude.Text.Split.{split_of_Lacks, split-append}
use rs_matter_server.Prelude.Text.Numbers.{parse_uint-show, show-Lacks, show-ascii}

-- `{}-{}-{}.ota`; the bytes of the text are its characters, which are ASCII.
unfoldable pub designator : ℕ → ℕ → ℕ → Text
designator vendor_id product_id version =
    show vendor_id ++ (b'-' ∷ show product_id ++ (b'-' ∷ show version ++ text ".ota"))

three : Option ℕ → Option ℕ → Option ℕ → Option (ℕ × ℕ × ℕ)
three (some vendor_id) (some product_id) (some version) = some (vendor_id, product_id, version)
three _ _ _ = none

-- Exactly three parts.
of_parts : List Text → Option (ℕ × ℕ × ℕ)
unfolding three
of_parts (a ∷ b ∷ c ∷ []) =
    three (parse_uint 10 0xffff a) (parse_uint 10 0xffff b) (parse_uint 10 0xffff_ffff_ffff_ffff c)
of_parts _ = none

of_stem : Option Text → Option (ℕ × ℕ × ℕ)
unfolding of_parts
of_stem none = none
of_stem (some stem) = of_parts (split b'-' stem)

of_text : Option Text → Option (ℕ × ℕ × ℕ)
unfolding of_stem
of_text none = none
of_text (some t) = of_stem (strip_suffix (text ".ota") t)

unfoldable pub parse_designator : List ℕ → Option (ℕ × ℕ × ℕ)
unfolding of_text
parse_designator bytes = of_text (from_utf8 bytes)

strip_suffix-append : (suffix s : Text) → strip_suffix suffix (s ++ suffix) ≡ some s
unfolding strip_suffix
strip_suffix-append suffix s =
    let e : length (s ++ suffix) - length suffix ≡ length s =
      omega (arith, length-append s suffix) in
    let enough : leb (length suffix) (length (s ++ suffix)) ≡ true =
      le→leb _ _ (omega (arith, length-append s suffix)) in
    if_true (λ o. o ≡ some s) (leb (length suffix) (length (s ++ suffix))) _ _ enough
      (rw (e, drop-length s suffix, take-length s suffix, ==-refl suffix) refl)

stem : ℕ → ℕ → ℕ → Text
stem vendor_id product_id version =
    show vendor_id ++ (b'-' ∷ show product_id ++ (b'-' ∷ show version))

stem_lem :
    (vendor_id product_id version : ℕ)
    → designator vendor_id product_id version ≡ stem vendor_id product_id version ++ text ".ota"
unfolding designator stem
stem_lem v p n =
    let tail : Text = text ".ota" in
    rw
      (
        append_assoc (show v) (b'-' ∷ show p ++ (b'-' ∷ show n)) tail,
        append_assoc (show p) (b'-' ∷ show n) tail,
      )
      refl

stem-ascii : (v p n : ℕ) → All (λ c. c < 128) (stem v p n ++ text ".ota")
unfolding stem
stem-ascii v p n =
    All-append _ (stem v p n) (text ".ota")
      (All-append _ (show v) _ (show-ascii v)
        (omega arith, All-append _ (show p) _ (show-ascii p) (omega arith, show-ascii n)))
      (omega arith, (omega arith, (omega arith, (omega arith, tt))))

split-stem : (v p n : ℕ) → split b'-' (stem v p n) ≡ show v ∷ show p ∷ show n ∷ []
unfolding stem
split-stem v p n =
    rw
      (
        split-append b'-' (show v) (show p ++ (b'-' ∷ show n)) (show-Lacks b'-' v (omega arith)),
        split-append b'-' (show p) (show n) (show-Lacks b'-' p (omega arith)),
        split_of_Lacks b'-' (show n) (show-Lacks b'-' n (omega arith)),
      )
      refl

-- The name that is offered for an image is read back as that image: vendor and product of 16 bits,
-- version of 64.
pub parse_designator-designator :
    (vendor_id product_id version : ℕ)
    → vendor_id ≤ 0xffff
    → product_id ≤ 0xffff
    → version ≤ 0xffff_ffff_ffff_ffff
    → parse_designator (designator vendor_id product_id version)
      ≡ some (vendor_id, product_id, version)
unfolding parse_designator of_text of_stem of_parts three
parse_designator-designator vendor_id product_id version v p n =
    rw
      (
        stem_lem vendor_id product_id version,
        from_utf8_ascii _ (stem-ascii vendor_id product_id version),
        strip_suffix-append (text ".ota") (stem vendor_id product_id version),
        split-stem vendor_id product_id version,
        parse_uint-show 0xffff vendor_id v,
        parse_uint-show 0xffff product_id p,
        parse_uint-show 0xffff_ffff_ffff_ffff version n,
      )
      refl
