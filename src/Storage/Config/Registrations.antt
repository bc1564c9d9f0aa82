-- ===== src/Storage/Config/Registrations.antt =====
-- server/src/storage/config.rs: the keys that sleepy devices check in with. The Base64 codec is a
-- parameter.
use rs_matter_server.Prelude.{
  ℕ, ◌≡◌, refl, not, Option, none, some, List, [], ◌∷◌, ◌++◌, ◌==◌, nat_ord, keep, update_first,
  arith,
}
use rs_matter_server.Prelude.Text.{Text}
use rs_matter_server.Storage.Config.{ConfigData, IcdEntry}

-- `base64::engine::general_purpose::STANDARD`: what it encodes, it decodes.
pub record Base64 : Type 0 where
  pub encode : List ℕ → Text
  pub decode : Text → Option (List ℕ)
  pub decode-encode : (bytes : List ℕ) → decode (encode bytes) ≡ some bytes

abbrev pub Registration : Type 0
Registration = ℕ × List ℕ × Option ℕ

unfoldable pub remove_icd_registration : ℕ → ConfigData → ConfigData
remove_icd_registration node_id config = record config {
  icd_registrations = keep (λ e. not (e.node_id == node_id)) config.icd_registrations;
}

unfoldable pub note_icd_counter : ℕ → ℕ → ConfigData → ConfigData
note_icd_counter node_id counter config = record config {
  icd_registrations =
      update_first (λ e. e.node_id == node_id) (λ e. record e { counter = some counter })
        config.icd_registrations;
}

module _ ⦃base64 : Base64⦄ where
  unfoldable pub set_icd_registration : ℕ → List ℕ → ConfigData → ConfigData
  set_icd_registration node_id key config = record config {
    icd_registrations =
        keep (λ e. not (e.node_id == node_id)) config.icd_registrations
        ++ (record { node_id = node_id; key = base64.encode key; counter = none } ∷ []);
  }

  -- Entries whose key is no Base64 are passed over.
  unfoldable pub decoded : List IcdEntry → List Registration
  decoded [] = []
  decoded (e ∷ entries) =
      let rest = decoded entries in
      elim (base64.decode e.key) [ none ↦ rest | some key ↦ (e.node_id, key, e.counter) ∷ rest ]

  unfoldable pub icd_registrations : ConfigData → List Registration
  unfolding decoded
  icd_registrations config = decoded config.icd_registrations

  decoded-append :
      (xs : List IcdEntry) (node_id : ℕ) (key : List ℕ)
      → decoded (xs ++ (record { node_id = node_id; key = base64.encode key; counter = none } ∷ []))
        ≡ decoded xs ++ ((node_id, key, none) ∷ [])
  unfolding decoded
  decoded-append [] node_id key = rw base64.decode-encode refl
  decoded-append (e ∷ xs) node_id key = ground (arith, decoded-append xs node_id key)

  decoded-keep :
      (node_id : ℕ) (xs : List IcdEntry)
      → decoded (keep (λ e. not (e.node_id == node_id)) xs)
        ≡ keep (λ r. not (r.0 == node_id)) (decoded xs)
  unfolding decoded
  decoded-keep node_id [] = refl
  decoded-keep node_id (e ∷ xs) = ground (arith, decoded-keep node_id xs)

  pub remove_icd_registration-icd_registrations :
      (node_id : ℕ) (config : ConfigData)
      → icd_registrations (remove_icd_registration node_id config)
        ≡ keep (λ r. not (r.0 == node_id)) (icd_registrations config)
  unfolding icd_registrations remove_icd_registration
  remove_icd_registration-icd_registrations node_id config =
      decoded-keep node_id config.icd_registrations

  -- Registering a device replaces what was registered for it and nothing else: the key is read back
  -- as it was given, with no counter yet, after the other registrations in their order.
  pub set_icd_registration-icd_registrations :
      (node_id : ℕ) (key : List ℕ) (config : ConfigData)
      → icd_registrations (set_icd_registration node_id key config)
        ≡ keep (λ r. not (r.0 == node_id)) (icd_registrations config) ++ ((node_id, key, none) ∷ [])
  unfolding icd_registrations set_icd_registration
  set_icd_registration-icd_registrations node_id key config =
      rw
        (
          decoded-append (keep (λ e. not (e.node_id == node_id)) config.icd_registrations) node_id
              key,
          decoded-keep node_id config.icd_registrations,
        )
        refl
