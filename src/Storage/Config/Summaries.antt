-- ===== src/Storage/Config/Summaries.antt =====
-- server/src/storage/config.rs: `summaries`, the only view of the credentials that clients get.
use rs_matter_server.Prelude.{
  ◌≡◌, refl, true, Option, none, some, List, [], ◌∷◌, ◌++◌, ◌==◌, text_ord, any, map, if◌then◌else◌,
  ==-refl, if_either,
}
use rs_matter_server.Prelude.Text.{Text}
use rs_matter_server.Storage.ThreadDataset.{OperationalDataset, decode}
use rs_matter_server.Storage.Config.{ConfigData, WifiEntry, default_credential_id}

pub record WifiCredentialSummary : Type 0 where
  pub id : Text
  pub ssid : Text

pub record ThreadCredentialSummary : Type 0 where
  pub id : Text
  pub network_name : Option Text
  pub ext_pan_id : Option Text

pub record AllCredentialsSummary : Type 0 where
  pub wifi : List WifiCredentialSummary
  pub thread : List ThreadCredentialSummary

wifi_entry : WifiEntry → WifiCredentialSummary
wifi_entry e = record { id = e.id; ssid = e.ssid }

default_wifi : Option Text → Option Text → List WifiCredentialSummary
default_wifi (some ssid) (some secret) = record { id = default_credential_id; ssid = ssid } ∷ []
default_wifi (some ssid) none = []
default_wifi none secret = []

-- The reserved entry is listed even when unset.
with_default : List WifiCredentialSummary → List WifiCredentialSummary
with_default wifi =
    if any (λ e. e.id == default_credential_id) wifi
    then wifi
    else record { id = default_credential_id; ssid = [] } ∷ wifi

summary_of : Text → Option OperationalDataset → ThreadCredentialSummary
summary_of id none = record { id = id; network_name = none; ext_pan_id = none }
summary_of id (some d) = record {
  id = id;
  network_name = d.network_name;
  ext_pan_id = d.ext_pan_id;
}

summarize_thread : Text → Text → ThreadCredentialSummary
unfolding summary_of
summarize_thread id dataset = summary_of id (decode dataset)

default_thread : Option Text → List ThreadCredentialSummary
unfolding summarize_thread
default_thread none = []
default_thread (some dataset) = summarize_thread default_credential_id dataset ∷ []

with_default_thread : List ThreadCredentialSummary → List ThreadCredentialSummary
with_default_thread thread =
    if any (λ e. e.id == default_credential_id) thread
    then thread
    else record { id = default_credential_id; network_name = none; ext_pan_id = none } ∷ thread

unfoldable pub summaries : ConfigData → AllCredentialsSummary
unfolding with_default with_default_thread default_wifi default_thread wifi_entry summarize_thread
summaries config = record {
  wifi = with_default (
      default_wifi config.wifi_ssid config.wifi_credentials
      ++ map wifi_entry config.additional_wifi);
  thread = with_default_thread (
      default_thread config.thread_dataset
      ++ map (λ e. summarize_thread e.id e.dataset) config.additional_thread);
}

mask : (Text → Text) → WifiEntry → WifiEntry
mask f e = record e { credentials = f e.credentials }

-- A configuration with every password replaced by another.
unfoldable pub with_passwords : (Text → Text) → ConfigData → ConfigData
unfolding mask
with_passwords f config = record config {
  wifi_credentials = elim config.wifi_credentials [ none ↦ none | some s ↦ some (f s) ];
  additional_wifi = map (mask f) config.additional_wifi;
}

entries_hide :
    (f : Text → Text) (es : List WifiEntry) → map wifi_entry (map (mask f) es) ≡ map wifi_entry es
unfolding wifi_entry mask
entries_hide f [] = refl
entries_hide f (e ∷ es) = rw (entries_hide f es) refl

default_hides :
    (f : Text → Text) (ssid secret : Option Text)
    → default_wifi ssid (elim secret [ none ↦ none | some s ↦ some (f s) ])
      ≡ default_wifi ssid secret
unfolding default_wifi
default_hides f none none = refl
default_hides f none (some s) = refl
default_hides f (some n) none = refl
default_hides f (some n) (some s) = refl

with_default-any :
    (wifi : List WifiCredentialSummary)
    → any (λ e. e.id == default_credential_id) (with_default wifi) ≡ true
unfolding with_default
with_default-any wifi =
    if_either (λ w. any {A = WifiCredentialSummary} (λ e. e.id == default_credential_id) w ≡ true)
      (any (λ e. e.id == default_credential_id) wifi) _ _ (λ h. h)
      (λ h. rw (==-refl default_credential_id) refl)

with_default_thread-any :
    (thread : List ThreadCredentialSummary)
    → any (λ e. e.id == default_credential_id) (with_default_thread thread) ≡ true
unfolding with_default_thread
with_default_thread-any thread =
    if_either (λ t. any {A = ThreadCredentialSummary} (λ e. e.id == default_credential_id) t ≡ true)
      (any (λ e. e.id == default_credential_id) thread) _ _ (λ h. h)
      (λ h. rw (==-refl default_credential_id) refl)

-- No password leaves in the view: it is the same whatever the stored passwords are. And it always
-- lists the reserved entry, of either kind.
pub summaries_hide_passwords :
    (f : Text → Text) (config : ConfigData)
    → (summaries (with_passwords f config) ≡ summaries config)
      × (any (λ e. e.id == default_credential_id) (summaries config).wifi ≡ true)
      × (any (λ e. e.id == default_credential_id) (summaries config).thread ≡ true)
unfolding summaries with_passwords
summaries_hide_passwords f config = (
  rw
      (
        entries_hide f config.additional_wifi,
        default_hides f config.wifi_ssid config.wifi_credentials,
      )
      refl,
  with_default-any _,
  with_default_thread-any _,
)
