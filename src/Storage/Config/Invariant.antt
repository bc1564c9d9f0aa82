-- ===== src/Storage/Config/Invariant.antt =====
-- server/src/storage/config.rs: what every configuration satisfies that the operations made.
use rs_matter_server.Prelude.{
  ℕ, ◌≤◌, ◌≡◌, inl, inr, refl, sym, ◌∙◌, ==-refl, Bool, false, not, Option, none, some, List, [],
  ◌∷◌, ◌++◌, ◌==◌, nat_ord, text_ord, keep, map, take, length, update_first, if_either, leb, Result,
  Result-cases, ok, err, >>=-eq-ok, unwrap_or, arith, length-take,
}
use rs_matter_server.Prelude.Text.{Text, trim}
use rs_matter_server.Prelude.Entries.{
  find_key, find_key-keep, IsUnique, IsUnique-put, IsUnique-keep, IsUnique-append,
}
use rs_matter_server.Storage.Config.{
  ConfigData, WifiEntry, ThreadEntry, IcdEntry, initial, normalize_fabric_label, allocate_node_id,
  reserve_node_ids_above, set_wifi_credentials, remove_wifi_credentials, set_thread_dataset,
  remove_thread_dataset, validate_credential_id, default_credential_id, set_default_wifi,
  set_additional_wifi, same_id, assert_no_case_clash, put_entry, default_fabric_label,
}
use rs_matter_server.Storage.Config.Ids.{ok_inj}
use rs_matter_server.Storage.Config.Credentials.{
  key_of_wifi, key_of_thread, put_wifi_lem, put_thread_lem, set_default_wifi-wifi_credentials,
  set_additional_wifi-wifi_credentials,
}
use rs_matter_server.Storage.Config.Registrations.{
  Base64, set_icd_registration, remove_icd_registration, note_icd_counter,
}

-- The label has 1 to 32 characters, no two entries have ids that differ only in case or in the
-- space around them, and a node is registered for check-ins once.
pub record IsValid (config : ConfigData) : Type 0 where
  pub label_some : 1 ≤ length config.fabric_label
  pub label_short : length config.fabric_label ≤ 32
  pub wifi_unique : IsUnique key_of_wifi config.additional_wifi
  pub thread_unique : IsUnique key_of_thread config.additional_thread
  pub icd_unique : IsUnique (λ e. e.node_id) config.icd_registrations

pub data Change : Type 0 where
  label : Text → Change
  allocates : Change
  reserves : ℕ → Change
  sets_wifi : Option Text → Text → Option Text → Change
  removes_wifi : Option Text → Change
  sets_thread : Option Text → Text → Change
  removes_thread : Option Text → Change
  registers : ℕ → List ℕ → Change
  unregisters : ℕ → Change
  notes : ℕ → ℕ → Change

-- A refused change leaves the configuration.
or_unchanged : Result Text ConfigData → ConfigData → ConfigData
or_unchanged (ok config') config = config'
or_unchanged (err e) config = config

module _ ⦃base64 : Base64⦄ where
  unfoldable pub apply : ConfigData → Change → ConfigData
  unfolding or_unchanged
  apply config (label l) = record config { fabric_label = normalize_fabric_label (some l) }
  apply config allocates = (allocate_node_id config).0
  apply config (reserves highest) = reserve_node_ids_above highest config
  apply config (sets_wifi id ssid credentials) =
      or_unchanged (set_wifi_credentials id ssid credentials config) config
  apply config (removes_wifi id) = remove_wifi_credentials id config
  apply config (sets_thread id dataset) = or_unchanged (set_thread_dataset id dataset config) config
  apply config (removes_thread id) = remove_thread_dataset id config
  apply config (registers node_id key) = set_icd_registration node_id key config
  apply config (unregisters node_id) = remove_icd_registration node_id config
  apply config (notes node_id counter) = note_icd_counter node_id counter config

  unfoldable pub apply_all : ConfigData → List Change → ConfigData
  apply_all config [] = config
  apply_all config (c ∷ cs) = apply_all (apply config c) cs

take_bounds :
    (t : Text) → (length t == 0) ≡ false → (1 ≤ length (take 32 t)) × (length (take 32 t) ≤ 32)
take_bounds [] h = cc
take_bounds (c ∷ t) h = omega (arith, length-take 32 (c ∷ t))

normalize_fabric_label-length :
    (l : Option Text)
    → (1 ≤ length (normalize_fabric_label l)) × (length (normalize_fabric_label l) ≤ 32)
unfolding normalize_fabric_label default_fabric_label
normalize_fabric_label-length l =
    let trimmed : Text = unwrap_or (elim l [ none ↦ none | some t ↦ some (trim t) ]) [] in
    if_either (λ t. (1 ≤ length (take 32 t)) × (length (take 32 t) ≤ 32)) (length trimmed == 0)
      default_fabric_label trimmed (λ z. (omega arith, omega arith)) (λ z. take_bounds trimmed z)

noted-IsUnique :
    (node_id counter : ℕ) (es : List IcdEntry)
    → IsUnique (λ e. e.node_id) es
    → IsUnique
        (λ e. e.node_id)
        (update_first (λ e. e.node_id == node_id) (λ e. record e { counter = some counter }) es)
noted-IsUnique node_id counter [] u = u
noted-IsUnique node_id counter (e ∷ es) (n, u) =
    ground (arith, noted-IsUnique node_id counter es u, noted_absent e.node_id es n)
  where
    noted_absent :
        (k : ℕ) (es : List IcdEntry)
        → find_key (λ e. e.node_id) k es ≡ none
        → find_key
            (λ e. e.node_id)
            k
            (update_first (λ e. e.node_id == node_id) (λ e. record e { counter = some counter }) es)
          ≡ none
    noted_absent k [] h = refl
    noted_absent k (e ∷ es) h = ground (arith, noted_absent k es)

registered-IsUnique :
    (node_id : ℕ) (key : Text) (es : List IcdEntry)
    → IsUnique (λ e. e.node_id) es
    → IsUnique
        (λ e. e.node_id)
        (keep (λ e. not (e.node_id == node_id)) es
          ++ (record { node_id = node_id; key = key; counter = none } ∷ []))
registered-IsUnique node_id key es u =
    let p : IcdEntry → Bool = λ e. not (e.node_id == node_id) in
    IsUnique-append (λ e. e.node_id) (record { node_id = node_id; key = key; counter = none })
      (keep p es) (find_key-keep (λ e. e.node_id) node_id es node_id ∙ rw ==-refl refl)
      (IsUnique-keep (λ e. e.node_id) p es u)

-- A change of the parts that the invariant does not speak of.
wifi_replaced :
    (config : ConfigData) (entry : WifiEntry)
    → IsValid config
    → IsValid
        (record config { additional_wifi = put_entry (λ e. e.id) entry config.additional_wifi })
wifi_replaced config entry v = record {
  label_some = v.label_some;
  label_short = v.label_short;
  wifi_unique =
      rw (put_wifi_lem entry config.additional_wifi)
        (IsUnique-put key_of_wifi entry config.additional_wifi v.wifi_unique);
  thread_unique = v.thread_unique;
  icd_unique = v.icd_unique;
}

thread_replaced :
    (config : ConfigData) (entry : ThreadEntry)
    → IsValid config
    → IsValid
        (record config { additional_thread = put_entry (λ e. e.id) entry config.additional_thread })
thread_replaced config entry v = record {
  label_some = v.label_some;
  label_short = v.label_short;
  wifi_unique = v.wifi_unique;
  thread_unique =
      rw (put_thread_lem entry config.additional_thread)
        (IsUnique-put key_of_thread entry config.additional_thread v.thread_unique);
  icd_unique = v.icd_unique;
}

defaults_replaced :
    (config : ConfigData) (ssid secret dataset : Option Text) (next : ℕ)
    → IsValid config
    → IsValid (record config {
      wifi_ssid = ssid;
      wifi_credentials = secret;
      thread_dataset = dataset;
      next_node_id = next;
    })
defaults_replaced config ssid secret dataset next v = record {
  label_some = v.label_some;
  label_short = v.label_short;
  wifi_unique = v.wifi_unique;
  thread_unique = v.thread_unique;
  icd_unique = v.icd_unique;
}

IsValid-eq : {c d : ConfigData} → c ≡ d → IsValid d → IsValid c
IsValid-eq e v = rw e v

wifi-IsValid :
    (id : Option Text) (ssid : Text) (credentials : Option Text) (config config' : ConfigData)
    → set_wifi_credentials id ssid credentials config ≡ ok config'
    → IsValid config
    → IsValid config'
unfolding set_wifi_credentials
wifi-IsValid id ssid credentials config config' h v =
    let (canonical, _, w) =
      >>=-eq-ok (validate_credential_id (unwrap_or id default_credential_id)) _ h in
    if_either (λ r. r ≡ ok config' → IsValid config') (canonical == default_credential_id)
      (set_default_wifi config ssid credentials)
      (set_additional_wifi config canonical ssid credentials)
      (λ d e.
        let (secret, p, q) = set_default_wifi-wifi_credentials config config' ssid credentials e in
        rw q (
          defaults_replaced config (some ssid) (some secret) config.thread_dataset
            config.next_node_id v))
      (λ d e.
        let (secret, p, q) =
          set_additional_wifi-wifi_credentials config config' canonical ssid credentials e in
        rw q
          (wifi_replaced config (record { id = canonical; ssid = ssid; credentials = secret }) v))
      w

thread-IsValid :
    (id : Option Text) (dataset : Text) (config config' : ConfigData)
    → set_thread_dataset id dataset config ≡ ok config'
    → IsValid config
    → IsValid config'
unfolding set_thread_dataset
thread-IsValid id dataset config config' h v =
    let (canonical, _, w) =
      >>=-eq-ok (validate_credential_id (unwrap_or id default_credential_id)) _ h in
    if_either (λ r. r ≡ ok config' → IsValid config') (canonical == default_credential_id) _ _
      (λ d e. IsValid-eq (sym (ok_inj e)) (
        defaults_replaced config config.wifi_ssid config.wifi_credentials (some dataset)
          config.next_node_id v))
      (λ d e.
        let (u, g, k) =
          >>=-eq-ok (assert_no_case_clash canonical (map (λ e. e.id) config.additional_thread)) _
            e in
        IsValid-eq (sym (ok_inj k))
          (thread_replaced config (record { id = canonical; dataset = dataset }) v))
      w

module _ ⦃base64 : Base64⦄ where
  apply-IsValid : (config : ConfigData) (c : Change) → IsValid config → IsValid (apply config c)
  unfolding apply or_unchanged allocate_node_id reserve_node_ids_above remove_wifi_credentials
      remove_thread_dataset set_icd_registration remove_icd_registration note_icd_counter
  apply-IsValid config (label l) v =
      let bounds = normalize_fabric_label-length (some l) in
      record {
        label_some = bounds.0;
        label_short = bounds.1;
        wifi_unique = v.wifi_unique;
        thread_unique = v.thread_unique;
        icd_unique = v.icd_unique;
      }
  apply-IsValid config allocates v =
      defaults_replaced config config.wifi_ssid config.wifi_credentials config.thread_dataset _ v
  apply-IsValid config (reserves highest) v =
      if_either IsValid (leb config.next_node_id highest) _ _
        (λ e.
          defaults_replaced config config.wifi_ssid config.wifi_credentials config.thread_dataset _
            v)
        (λ e. v)
  apply-IsValid config (sets_wifi id ssid credentials) v =
      elim (Result-cases (set_wifi_credentials id ssid credentials config)) [
        | inl (c, e) ↦ rw (or_unchanged, e) (wifi-IsValid id ssid credentials config c e v)
        | inr (x, e) ↦ rw (or_unchanged, e) v
      ]
  apply-IsValid config (removes_wifi id) v =
      if_either IsValid (same_id (unwrap_or id default_credential_id) default_credential_id) _ _
        (λ e. defaults_replaced config none none config.thread_dataset config.next_node_id v)
        (λ e. record {
          label_some = v.label_some;
          label_short = v.label_short;
          wifi_unique = IsUnique-keep key_of_wifi _ config.additional_wifi v.wifi_unique;
          thread_unique = v.thread_unique;
          icd_unique = v.icd_unique;
        })
  apply-IsValid config (sets_thread id dataset) v =
      elim (Result-cases (set_thread_dataset id dataset config)) [
        | inl (c, e) ↦ rw (or_unchanged, e) (thread-IsValid id dataset config c e v)
        | inr (x, e) ↦ rw (or_unchanged, e) v
      ]
  apply-IsValid config (removes_thread id) v =
      if_either IsValid (same_id (unwrap_or id default_credential_id) default_credential_id) _ _
        (λ e.
          defaults_replaced config config.wifi_ssid config.wifi_credentials none config.next_node_id
            v)
        (λ e. record {
          label_some = v.label_some;
          label_short = v.label_short;
          wifi_unique = v.wifi_unique;
          thread_unique = IsUnique-keep key_of_thread _ config.additional_thread v.thread_unique;
          icd_unique = v.icd_unique;
        })
  apply-IsValid config (registers node_id key) v = record {
    label_some = v.label_some;
    label_short = v.label_short;
    wifi_unique = v.wifi_unique;
    thread_unique = v.thread_unique;
    icd_unique =
        registered-IsUnique node_id (base64.encode key) config.icd_registrations v.icd_unique;
  }
  apply-IsValid config (unregisters node_id) v = record {
    label_some = v.label_some;
    label_short = v.label_short;
    wifi_unique = v.wifi_unique;
    thread_unique = v.thread_unique;
    icd_unique = IsUnique-keep (λ e. e.node_id) _ config.icd_registrations v.icd_unique;
  }
  apply-IsValid config (notes node_id counter) v = record {
    label_some = v.label_some;
    label_short = v.label_short;
    wifi_unique = v.wifi_unique;
    thread_unique = v.thread_unique;
    icd_unique = noted-IsUnique node_id counter config.icd_registrations v.icd_unique;
  }

  apply_all_from-IsValid :
      (config : ConfigData) (cs : List Change) → IsValid config → IsValid (apply_all config cs)
  unfolding apply_all
  apply_all_from-IsValid config [] v = v
  apply_all_from-IsValid config (c ∷ cs) v =
      apply_all_from-IsValid (apply config c) cs (apply-IsValid config c v)

  -- From the initial configuration, whatever is changed: the fabric label has 1 to 32 characters, no
  -- two additional credentials have ids that differ only in case or in the space around them, and a
  -- node has one check-in registration at most.
  pub apply_all-IsValid : (cs : List Change) → IsValid (apply_all initial cs)
  unfolding initial default_fabric_label
  apply_all-IsValid cs = apply_all_from-IsValid initial cs (record {
    label_some = omega arith;
    label_short = omega arith;
    wifi_unique = tt;
    thread_unique = tt;
    icd_unique = tt;
  })
