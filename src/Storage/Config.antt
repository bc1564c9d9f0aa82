-- ===== src/Storage/Config.antt =====
-- server/src/storage/config.rs: the controller's configuration, the fabric label, the node-id
-- counter, the commissioning credentials and the check-in registrations.
pub mod Store
pub mod Ids
pub mod Credentials
pub mod Invariant
pub mod Summaries
mod Tests
pub mod Registrations
use Prim.Native.Nat.{max}
use mathlib.Core.List.{reverse}
use rs_matter_server.Prelude.{
  ℕ, ◌+◌, ◌%◌, ◌^◌, Bool, true, false, not, ◌&&◌, ◌||◌, Option, none, some, List, [], ◌∷◌, ◌++◌,
  ◌==◌, nat_ord, text_ord, leb, keep, any, find, map, length, take, unwrap_or, if◌then◌else◌,
  Result, ok, err, ◌>>=◌, ◌>>◌, update_first,
}
use rs_matter_server.Prelude.Text.{Text, text, trim, to_ascii_lowercase, eq_ignore_ascii_case}
use rs_matter_server.Prelude.Map.{Map, insert}

unfoldable pub default_credential_id : Text
default_credential_id = text "default"

reserved_credential_ids : List Text
reserved_credential_ids = text "default" ∷ text "delete" ∷ []

unfoldable pub default_fabric_label : Text
default_fabric_label = text "HomeAssistant"

abbrev pub max_fabric_label_len : ℕ
max_fabric_label_len = 32

-- An id is refused, or stored as `default`, or as it was written but for the space around it.
unfoldable pub validate_credential_id : Text → Result Text Text
unfolding reserved_credential_ids
validate_credential_id id =
    let trimmed : Text = trim id in
    let lower : Text = to_ascii_lowercase trimmed in
    if length trimmed == 0
    then err (text "invalid-credential-id: id must be non-empty")
    else if lower == default_credential_id
    then ok default_credential_id
    else if any (λ reserved. reserved == lower) reserved_credential_ids
    then err (text "invalid-credential-id: '" ++ trimmed ++ text "' is reserved")
    else ok trimmed

unfoldable pub same_id : Text → Text → Bool
same_id a b = eq_ignore_ascii_case (trim a) (trim b)

pub record WifiEntry : Type 0 where
  pub id : Text
  pub ssid : Text
  pub credentials : Text

pub record ThreadEntry : Type 0 where
  pub id : Text
  pub dataset : Text

-- `key` is Base64; `counter` is the highest check-in counter accepted.
pub record IcdEntry : Type 0 where
  pub node_id : ℕ
  pub key : Text
  pub counter : Option ℕ

pub record ConfigData : Type 0 where
  pub fabric_label : Text
  pub next_node_id : ℕ
  pub wifi_ssid : Option Text
  pub wifi_credentials : Option Text
  pub thread_dataset : Option Text
  pub additional_wifi : List WifiEntry
  pub additional_thread : List ThreadEntry
  pub icd_registrations : List IcdEntry

unfoldable pub initial : ConfigData
initial = record {
  fabric_label = default_fabric_label;
  next_node_id = 1;
  wifi_ssid = none;
  wifi_credentials = none;
  thread_dataset = none;
  additional_wifi = [];
  additional_thread = [];
  icd_registrations = [];
}

unfoldable pub normalize_fabric_label : Option Text → Text
normalize_fabric_label label =
    let trimmed : Text = unwrap_or (elim label [ none ↦ none | some l ↦ some (trim l) ]) [] in
    take max_fabric_label_len (if length trimmed == 0 then default_fabric_label else trimmed)

-- The id handed out, and the counter after it.
unfoldable pub allocate_node_id : ConfigData → ConfigData × ℕ
allocate_node_id config =
    let id : ℕ = max config.next_node_id 1 in
    (record config { next_node_id = (id + 1) % 2 ^ 64 }, id)

unfoldable pub reserve_node_ids_above : ℕ → ConfigData → ConfigData
reserve_node_ids_above highest_in_use config =
    if leb config.next_node_id highest_in_use
    then record config { next_node_id = (highest_in_use + 1) % 2 ^ 64 }
    else config

non_empty : Option Text → Option Text
non_empty none = none
non_empty (some s) = if length s == 0 then none else some s

password_required : Text
password_required =
    text
      "WiFi password is required (omit it only to keep the existing password for an unchanged SSID)"

unfoldable pub require_or_keep_secret : Option Text → Option Text → Result Text Text
unfolding non_empty password_required
require_or_keep_secret provided reusable = elim (non_empty provided) [
  | some secret ↦ ok secret
  | none ↦ elim (non_empty reusable) [ some secret ↦ ok secret | none ↦ err password_required ]
]

unfoldable pub assert_no_case_clash : Text → List Text → Result Text Unit
assert_no_case_clash id [] = ok tt
assert_no_case_clash id (other ∷ existing) =
    let rest = assert_no_case_clash id existing in
    if eq_ignore_ascii_case other (trim id) && not (other == trim id)
    then err (
        text "invalid-credential-id: '"
        ++ trim id
        ++ text "' duplicates existing '"
        ++ other
        ++ text "'")
    else rest

-- The entry at the position found is replaced, or the entry is put at the end.
unfoldable pub put_entry {ℓ} : {E : Type ℓ} (id_of : E → Text) → E → List E → List E
put_entry id_of entry entries = elim (find (λ e. same_id (id_of e) (id_of entry)) entries) [
  | some e ↦ update_first (λ e. same_id (id_of e) (id_of entry)) (λ e. entry) entries
  | none ↦ entries ++ (entry ∷ [])
]

is_text : Option Text → Text → Bool
is_text none b = false
is_text (some a) b = a == b

-- The stored password, where the network's name is unchanged.
default_secret : ConfigData → Text → Option Text
default_secret config ssid = if is_text config.wifi_ssid ssid then config.wifi_credentials else none

entry_secret : Option WifiEntry → Text → Option Text
entry_secret none ssid = none
entry_secret (some e) ssid = if e.ssid == ssid then some e.credentials else none

pub set_default_wifi : ConfigData → Text → Option Text → Result Text ConfigData
set_default_wifi config ssid credentials =
    require_or_keep_secret credentials (default_secret config ssid) >>= λ secret.
    ok (record config { wifi_ssid = some ssid; wifi_credentials = some secret })

pub set_additional_wifi : ConfigData → Text → Text → Option Text → Result Text ConfigData
set_additional_wifi config id ssid credentials =
    assert_no_case_clash id (map (λ e. e.id) config.additional_wifi)
    >> require_or_keep_secret credentials
        (entry_secret (find (λ e. same_id e.id id) config.additional_wifi) ssid)
    >>= λ secret. ok (record config {
      additional_wifi =
          put_entry (λ e. e.id) (record { id = id; ssid = ssid; credentials = secret })
            config.additional_wifi;
    })

-- What is stored, before the file is written.
unfoldable pub set_wifi_credentials :
    Option Text → Text → Option Text → ConfigData → Result Text ConfigData
unfolding set_default_wifi set_additional_wifi default_secret entry_secret is_text
set_wifi_credentials id ssid credentials config =
    validate_credential_id (unwrap_or id default_credential_id) >>= λ canonical.
    if canonical == default_credential_id
    then set_default_wifi config ssid credentials
    else set_additional_wifi config canonical ssid credentials

unfoldable pub remove_wifi_credentials : Option Text → ConfigData → ConfigData
remove_wifi_credentials id config =
    let named : Text = unwrap_or id default_credential_id in
    if same_id named default_credential_id
    then record config { wifi_ssid = none; wifi_credentials = none }
    else record config {
      additional_wifi = keep (λ e. not (same_id e.id named)) config.additional_wifi;
    }

pub both : Option Text → Option Text → Option (Text × Text)
both (some a) (some b) = some (a, b)
both (some a) none = none
both none b = none

pub entry_credentials : Option WifiEntry → Option (Text × Text)
entry_credentials none = none
entry_credentials (some e) = some (e.ssid, e.credentials)

unfoldable pub wifi_credentials : Option Text → ConfigData → Option (Text × Text)
unfolding both entry_credentials
wifi_credentials id config =
    let named : Text = unwrap_or id default_credential_id in
    if same_id named default_credential_id
    then both config.wifi_ssid config.wifi_credentials
    else entry_credentials (find (λ e. same_id e.id named) config.additional_wifi)

first_of : Option (Text × Text) → Option Text
first_of none = none
first_of (some p) = some p.0

unfoldable pub default_wifi_ssid : ConfigData → Option Text
unfolding both first_of
default_wifi_ssid config = first_of (both config.wifi_ssid config.wifi_credentials)

unfoldable pub set_thread_dataset : Option Text → Text → ConfigData → Result Text ConfigData
set_thread_dataset id dataset config =
    validate_credential_id (unwrap_or id default_credential_id) >>= λ canonical.
    if canonical == default_credential_id
    then ok (record config { thread_dataset = some dataset })
    else (assert_no_case_clash canonical (map (λ e. e.id) config.additional_thread)
        >> ok (record config {
          additional_thread =
              put_entry (λ e. e.id) (record { id = canonical; dataset = dataset })
                config.additional_thread;
        }))

unfoldable pub remove_thread_dataset : Option Text → ConfigData → ConfigData
remove_thread_dataset id config =
    let named : Text = unwrap_or id default_credential_id in
    if same_id named default_credential_id
    then record config { thread_dataset = none }
    else record config {
      additional_thread = keep (λ e. not (same_id e.id named)) config.additional_thread;
    }

entry_dataset : Option ThreadEntry → Option Text
entry_dataset none = none
entry_dataset (some e) = some e.dataset

unfoldable pub thread_dataset : Option Text → ConfigData → Option Text
unfolding entry_dataset
thread_dataset id config =
    let named : Text = unwrap_or id default_credential_id in
    if same_id named default_credential_id
    then config.thread_dataset
    else entry_dataset (find (λ e. same_id e.id named) config.additional_thread)

insert_entries : List ThreadEntry → Map Text Text → Map Text Text
insert_entries [] all = all
insert_entries (e ∷ entries) all = insert_entries entries (insert e.id e.dataset all)

unfoldable pub all_thread_datasets : ConfigData → Map Text Text
unfolding insert_entries
all_thread_datasets config = insert_entries config.additional_thread (elim config.thread_dataset [
  | none ↦ []
  | some dataset ↦ insert default_credential_id dataset []
])
