-- ===== src/Migrate/Import.antt =====
-- server/src/migrate/model.rs: what is read out of matter.js storage.
use rs_matter_server.Prelude.{
  and_then, or_else, ℕ, ◌+◌, ◌*◌, Bool, true, false, not, Option, none, some, List, [], ◌∷◌, ◌++◌,
  ◌==◌, nat_ord, text_ord, find, length, leb, if◌then◌else◌, unwrap_or, is_some, Result, ok, err,
  ◌>>=◌, ok_or,
}
use rs_matter_server.Prelude.Text.{Text, text}
use rs_matter_server.Prelude.Map.{get, values}
use rs_matter_server.Migrate.Value.{Formats, MjValue, mj_str, mj_bytes, mj_array, mj_get, mj_u64}
use rs_matter_server.Migrate.Namespaces.{
  Namespace, MatterJsStorage, Loaded, loaded, unsupported, namespace, value_of,
}

abbrev pub fabric_contexts : List Text
fabric_contexts = text "credentials" ∷ text "MatterController" ∷ text "certificates" ∷ []

abbrev pub ca_contexts : List Text
ca_contexts = text "credentials" ∷ text "certificates" ∷ text "RootCertificateManager" ∷ []

abbrev pub secret_key_len : ℕ
secret_key_len = 32

abbrev pub epoch_key_len : ℕ
epoch_key_len = 16

pub record ImportedFabric : Type 0 where
  pub root_cert : List ℕ
  pub noc : List ℕ
  pub icac : List ℕ
  pub operational_key : List ℕ
  pub ipk_epoch_key : List ℕ
  pub vendor_id : ℕ
  pub node_id : ℕ
  pub fabric_id : ℕ
  pub fabric_index : ℕ
  pub label : Text
  pub issuer_key : List ℕ
  pub issuer_is_icac : Bool
  pub compressed_fabric_id : Option ℕ

pub record ImportedNode : Type 0 where
  pub node_id : ℕ
  pub commissioned_at : Option ℕ
  pub fabric_index_on_peer : Option ℕ
  pub addresses : List Text

pub record ImportedConfig : Type 0 where
  pub fabric_label : Option Text
  pub next_node_id : Option ℕ
  pub wifi : List (Text × Text × Text)
  pub thread : List (Text × Text)

abbrev pub no_config : ImportedConfig
no_config = record { fabric_label = none; next_node_id = none; wifi = []; thread = [] }

-- `u64::from_be_bytes`.
unfoldable pub from_be_bytes : ℕ → List ℕ → ℕ
from_be_bytes acc [] = acc
from_be_bytes acc (b ∷ bs) = from_be_bytes (acc * 256 + b) bs

module _ {F : Type 0} where
  abbrev pub has_cert : MjValue F → Bool
  has_cert fabric = is_some (mj_get (text "operationalCert") fabric)

  pub fabric_in : Namespace F → List Text → Option (MjValue F)
  fabric_in n [] = none
  fabric_in n (context ∷ contexts) =
      let rest = fabric_in n contexts in
      elim (value_of n (context ∷ []) (text "fabric")) [
        | none ↦ rest
        | some fabric ↦ if has_cert fabric then some fabric else rest
      ]

  -- Newest place first; then the list of the node API.
  unfoldable pub fabric_config : Namespace F → Option (MjValue F)
  unfolding fabric_in
  fabric_config n = or_else (fabric_in n fabric_contexts) (
      and_then (value_of n (text "fabrics" ∷ []) (text "fabrics"))
        (λ fabrics. and_then (mj_array fabrics) (find has_cert)))

  -- The namespaces that hold a fabric.
  pub candidates : List (Loaded F) → List (Namespace F)
  unfolding fabric_config
  candidates [] = []
  candidates (loaded n ∷ more) =
      let rest = candidates more in if is_some (fabric_config n) then n ∷ rest else rest
  candidates (unsupported driver ∷ more) = candidates more

  pub only : List (Namespace F) → Result Text (Namespace F)
  only [] = err (text "no controller fabric found in any namespace")
  only (n ∷ []) = ok n
  only (n ∷ m ∷ more) = err (text "several namespaces hold a fabric")

  unfoldable pub find_controller_namespace :
      MatterJsStorage F → Option Text → Result Text (Namespace F)
  unfolding fabric_config candidates only
  find_controller_namespace storage (some name) = namespace name storage >>= λ n.
      if is_some (fabric_config n) then ok n else err (text "holds no controller fabric")
  find_controller_namespace storage none =
      let searched = only (candidates (values storage)) in
      elim (get (text "server") storage) [
        | some (loaded n) ↦ if is_some (fabric_config n) then ok n else searched
        | some (unsupported driver) ↦ searched
        | none ↦ searched
      ]

  pub required_bytes : MjValue F → Text → Result Text (List ℕ)
  required_bytes value field_name =
      ok_or (and_then (mj_get field_name value) mj_bytes) (text "no readable " ++ field_name)

  unfoldable pub private_key : MjValue F → Result Text (List ℕ)
  private_key value =
      ok_or (or_else (mj_bytes value) (and_then (mj_get (text "privateKey") value) mj_bytes))
        (text "no private key in the stored key pair")
      >>= λ key.
          if length key == secret_key_len
          then ok key
          else err (text "a stored private key has another length")

  -- The signing key: the intermediate CA's where the fabric's chain runs through one.
  unfoldable pub read_issuer_key : Namespace F → Bool → Result Text (List ℕ × Bool)
  unfolding private_key
  read_issuer_key n fabric_has_icac =
      ok_or (find (λ c. is_some (value_of n (c ∷ []) (text "rootCertBytes"))) ca_contexts)
        (text "a fabric but no certificate authority")
      >>= λ context.
          if fabric_has_icac
          then (ok_or (value_of n (context ∷ []) (text "icacKeyPair"))
                (text "no intermediate CA key")
              >>= λ pair. private_key pair >>= λ key. ok (key, true))
          else (ok_or (value_of n (context ∷ []) (text "rootKeyPair")) (text "no root key")
              >>= λ pair. private_key pair >>= λ key. ok (key, false))

module _ {N F : Type 0} (fmt : Formats N F) where
  pub required_u64 : MjValue F → Text → Result Text ℕ
  required_u64 value field_name =
      ok_or (and_then (mj_get field_name value) (mj_u64 fmt)) (text "no readable " ++ field_name)

  unfoldable pub compressed_fabric_id : MjValue F → Option ℕ
  compressed_fabric_id fabric = or_else (and_then (mj_get (text "globalId") fabric) (mj_u64 fmt)) (
      and_then (and_then (mj_get (text "operationalId") fabric) mj_bytes)
        (λ bytes. if length bytes == 8 then some (from_be_bytes 0 bytes) else none))

  pub fits : ℕ → ℕ → Text → Result Text ℕ
  fits max n message = if leb n max then ok n else err message

  unfoldable pub read_fabric : Namespace F → Result Text ImportedFabric
  unfolding fabric_config required_bytes required_u64 private_key read_issuer_key fits
  read_fabric n = do
    fabric ← ok_or (fabric_config n) (text "no fabric")
    root_cert ← required_bytes fabric (text "rootCert")
    noc ← required_bytes fabric (text "operationalCert")
    let icac = unwrap_or (and_then (mj_get (text "intermediateCACert") fabric) mj_bytes) []
    pair ← ok_or (mj_get (text "keyPair") fabric) (text "no operational key pair")
    operational_key ← private_key pair
    ipk ← required_bytes fabric (text "identityProtectionKey")
    ipk_epoch_key ← (if length ipk == epoch_key_len then ok ipk else err (text "another length"))
    node_id ← required_u64 fabric (text "nodeId")
    fabric_id ← required_u64 fabric (text "fabricId")
    vendor ← required_u64 fabric (text "rootVendorId")
    vendor_id ← fits 0xffff vendor (text "the vendor id does not fit in 16 bits")
    fabric_index ←
        fits 0xff (unwrap_or (and_then (mj_get (text "fabricIndex") fabric) (mj_u64 fmt)) 1)
          (text "the fabric index does not fit in 8 bits")
    issuer ← read_issuer_key n (not (length icac == 0))
    ok (record {
      root_cert = root_cert;
      noc = noc;
      icac = icac;
      operational_key = operational_key;
      ipk_epoch_key = ipk_epoch_key;
      vendor_id = vendor_id;
      node_id = node_id;
      fabric_id = fabric_id;
      fabric_index = fabric_index;
      label = unwrap_or (and_then (mj_get (text "label") fabric) mj_str) [];
      issuer_key = issuer.0;
      issuer_is_icac = issuer.1;
      compressed_fabric_id = compressed_fabric_id fabric;
    })
