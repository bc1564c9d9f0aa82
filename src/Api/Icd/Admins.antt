-- ===== src/Api/Icd/Admins.antt =====
-- server/src/api/icd.rs: the administrators of other vendors that stand in the way of a registration.
use rs_matter_server.Prelude.{
  ℕ, ◌%◌, ◌^◌, ◌≡◌, refl, ◌∙◌, ap, Bool, false, not, ◌&&◌, ◌||◌, Option, none, some, List, [], ◌∷◌,
  ◌==◌, nat_ord, text_ord, any, if◌then◌else◌, unwrap_or, and_then, Option-cases, Bool-cases, inl,
  inr,
}
use rs_matter_server.Prelude.Text.{text}
use rs_matter_server.Prelude.Map.{get}
use rs_matter_server.Protocol.Json
use rs_matter_server.Protocol.Json.{Numbers, Value, as_array}
use rs_matter_server.Protocol.Model.{AttributesData, sort}
use rs_matter_server.Protocol.Model.Endpoints.{
  contains, IsIncreasing, contains-sort, contains-dedup, dedup-IsIncreasing,
}
use rs_matter_server.Api.Context.{FabricInfo}
use rs_matter_server.Api.Icd.{number_at, foreign_vendors, vendors_of}

module _ {N : Type 0} ⦃num : Numbers N⦄ where
  -- An entry whose vendor is neither this controller's nor ignored, and is `v` in 16 bits.
  abbrev pub is_foreign : ℕ → List ℕ → ℕ → Value N → Bool
  is_foreign own ignored v entry = elim (number_at (Json.get (text "2") entry)) [
    | none ↦ false
    | some vendor ↦
        (not (vendor == own) && not (any (λ i. i == vendor) ignored)) && (vendor % 2 ^ 16 == v)
  ]

  contains-foreign_vendors :
      (v own : ℕ) (ignored : List ℕ) (entries : List (Value N))
      → contains v (foreign_vendors own ignored entries) ≡ any (is_foreign own ignored v) entries
  unfolding foreign_vendors
  contains-foreign_vendors v own ignored [] = refl
  contains-foreign_vendors v own ignored (entry ∷ entries) =
      one (number_at (Json.get (text "2") entry))
      ∙ ap (λ b. is_foreign own ignored v entry || b)
          (contains-foreign_vendors v own ignored entries)
    where
      one :
          (o : Option ℕ)
          → contains v (elim o [
            | none ↦ foreign_vendors own ignored entries
            | some vendor ↦
                if not (vendor == own) && not (any (λ i. i == vendor) ignored)
                then vendor % 2 ^ 16 ∷ foreign_vendors own ignored entries
                else foreign_vendors own ignored entries
          ])
            ≡ ((elim o [
              | none ↦ false
              | some vendor ↦
                  (not (vendor == own) && not (any (λ i. i == vendor) ignored))
                  && (vendor % 2 ^ 16 == v)
            ])
                || contains v (foreign_vendors own ignored entries))
      one none = refl
      one (some vendor) =
          elim (Bool-cases (not (vendor == own) && not (any (λ i. i == vendor) ignored))) [
            | inl e ↦ rw e refl
            | inr e ↦ rw e refl
          ]

  -- The administrators that stand in the way are the vendors of the device's fabrics, in 16 bits, but
  -- for this controller's and the ignored ones, which are told apart before the cut; they are listed
  -- in increasing order, each once.
  pub vendors_of-contains :
      (fabric : FabricInfo) (ignored : List ℕ) (attributes : AttributesData N)
      → IsIncreasing (vendors_of fabric ignored attributes)
        × ((v : ℕ)
            → contains v (vendors_of fabric ignored attributes)
              ≡ any
                  (is_foreign fabric.vendor_id ignored v)
                  (unwrap_or (and_then (get (text "0/62/1") attributes) as_array) []))
  unfolding vendors_of
  vendors_of-contains fabric ignored attributes =
      elim (Option-cases (and_then (get (text "0/62/1") attributes) as_array)) [
        | inl missing ↦ rw (vendors_of, missing) (tt, λ v. refl)
        | inr (entries, found) ↦
            rw (vendors_of, found)
              (
                dedup-IsIncreasing (foreign_vendors fabric.vendor_id ignored entries),
                λ v.
                    contains-dedup v (sort (foreign_vendors fabric.vendor_id ignored entries))
                    ∙ contains-sort v (foreign_vendors fabric.vendor_id ignored entries)
                    ∙ contains-foreign_vendors v fabric.vendor_id ignored entries,
              )
      ]
