-- ===== src/Storage/Config/Credentials.antt =====
-- server/src/storage/config.rs: what the stored credentials answer after each operation on them.
use rs_matter_server.Prelude.{
  ◌≡◌, ◌⊎◌, inl, inr, refl, sym, true, false, not, Option, none, some, List, ◌==◌, ==_iff, nat_ord,
  text_ord, find, keep, map, unwrap_or, if◌then◌else◌, Result, ok, ◌>>◌, >>=-eq-ok, arith,
  if_either,
}
use rs_matter_server.Prelude.Text.{Text, eq_ignore_ascii_case}
use rs_matter_server.Prelude.Entries.{find_key, put_key, find_key-keep}
use rs_matter_server.Storage.Config.{
  ConfigData, WifiEntry, ThreadEntry, default_credential_id, same_id, put_entry,
  require_or_keep_secret, assert_no_case_clash, set_default_wifi, set_additional_wifi,
  remove_wifi_credentials, wifi_credentials, both, entry_credentials, default_secret, entry_secret,
  is_text, non_empty,
}
use rs_matter_server.Storage.Config.Ids.{fold, same_id-fold, same_id_default, ok_inj}

unfoldable pub key_of_wifi : WifiEntry → Text
key_of_wifi e = fold e.id

unfoldable pub key_of_thread : ThreadEntry → Text
key_of_thread e = fold e.id

pub put_wifi_lem :
    (e : WifiEntry) (es : List WifiEntry) → put_entry (λ e. e.id) e es ≡ put_key key_of_wifi e es
unfolding put_entry key_of_wifi fold same_id eq_ignore_ascii_case
put_wifi_lem e es = refl

pub put_thread_lem :
    (e : ThreadEntry) (es : List ThreadEntry)
    → put_entry (λ e. e.id) e es ≡ put_key key_of_thread e es
unfolding put_entry key_of_thread fold same_id eq_ignore_ascii_case
put_thread_lem e es = refl

find_wifi_lem :
    (id : Text) (es : List WifiEntry)
    → find (λ e. same_id e.id id) es ≡ find_key key_of_wifi (fold id) es
unfolding key_of_wifi fold same_id eq_ignore_ascii_case
find_wifi_lem id es = refl

-- The secret stored is a non-empty one that was given, or the one that could be kept.
require_or_keep_secret_cases :
    (provided reusable : Option Text) (secret : Text)
    → require_or_keep_secret provided reusable ≡ ok secret
    → (provided ≡ some secret) ⊎ (reusable ≡ some secret)
unfolding require_or_keep_secret non_empty
require_or_keep_secret_cases none none secret h = cc
require_or_keep_secret_cases none (some r) secret h = ground arith
require_or_keep_secret_cases (some p) none secret h = ground arith
require_or_keep_secret_cases (some p) (some r) secret h = ground arith

both_kept :
    (name secret : Option Text) (ssid kept : Text)
    → (if is_text name ssid then secret else none) ≡ some kept
    → both name secret ≡ some (ssid, kept)
unfolding both is_text
both_kept none secret ssid kept h = cc
both_kept (some n) none ssid kept h = ground arith
both_kept (some n) (some s) ssid kept h = ground (arith, ==_iff n ssid)

entry_kept :
    (o : Option WifiEntry) (ssid kept : Text)
    → entry_secret o ssid ≡ some kept
    → entry_credentials o ≡ some (ssid, kept)
unfolding entry_secret entry_credentials
entry_kept none ssid kept h = cc
entry_kept (some e) ssid kept h = ground (arith, ==_iff e.ssid ssid)

-- After a write of the reserved entry.
pub set_default_wifi-wifi_credentials :
    (config config' : ConfigData) (ssid : Text) (credentials : Option Text)
    → set_default_wifi config ssid credentials ≡ ok config'
    → (secret : Text) × ((credentials ≡ some secret)
        ⊎ (both config.wifi_ssid config.wifi_credentials ≡ some (ssid, secret)))
      × (config' ≡ record config { wifi_ssid = some ssid; wifi_credentials = some secret })
unfolding set_default_wifi default_secret
set_default_wifi-wifi_credentials config config' ssid credentials h =
    let (secret, e, f) = >>=-eq-ok (require_or_keep_secret credentials _) _ h in
    (
      secret,
      elim (require_or_keep_secret_cases credentials _ secret e) [
        | inl p ↦ inl p
        | inr q ↦ inr (both_kept config.wifi_ssid config.wifi_credentials ssid secret q)
      ],
      sym (ok_inj f),
    )

pub set_additional_wifi-wifi_credentials :
    (config config' : ConfigData) (id ssid : Text) (credentials : Option Text)
    → set_additional_wifi config id ssid credentials ≡ ok config'
    → (secret : Text) × ((credentials ≡ some secret)
        ⊎ (entry_credentials (find (λ e. same_id e.id id) config.additional_wifi)
            ≡ some (ssid, secret)))
      × (config' ≡ record config {
        additional_wifi =
            put_entry
              (λ e. e.id)
              (record { id = id; ssid = ssid; credentials = secret })
              config.additional_wifi;
      })
unfolding set_additional_wifi
set_additional_wifi-wifi_credentials config config' id ssid credentials h =
    let found : Option WifiEntry = find (λ e. same_id e.id id) config.additional_wifi in
    let clash : Result Text Unit =
      assert_no_case_clash id (map (λ e. e.id) config.additional_wifi) in
    let required : Result Text Text =
      require_or_keep_secret credentials (entry_secret found ssid) in
    let (secret, e, f) = >>=-eq-ok (clash >> required) _ h in
    let (u, g, k) = >>=-eq-ok clash (λ _. required) e in
    (
      secret,
      elim (require_or_keep_secret_cases credentials (entry_secret found ssid) secret k) [
        | inl p ↦ inl p
        | inr q ↦ inr (entry_kept found ssid secret q)
      ],
      sym (ok_inj f),
    )

wifi_at : Text → ConfigData → Option (Text × Text)
wifi_at k config =
    if k == default_credential_id
    then both config.wifi_ssid config.wifi_credentials
    else entry_credentials (find_key key_of_wifi k config.additional_wifi)

wifi_at_lem :
    (id : Option Text) (config : ConfigData)
    → wifi_credentials id config ≡ wifi_at (fold (unwrap_or id default_credential_id)) config
unfolding wifi_credentials wifi_at
wifi_at_lem id config =
    let named : Text = unwrap_or id default_credential_id in
    rw (find_wifi_lem named config.additional_wifi, same_id_default named) refl

default_removed :
    (config : ConfigData) (n k : Text)
    → (n == default_credential_id) ≡ true
    → wifi_at k (record config { wifi_ssid = none; wifi_credentials = none })
      ≡ (if n == k then none else wifi_at k config)
unfolding wifi_at both
default_removed config n k d =
    ground (arith, ==_iff n k, ==_iff k default_credential_id, ==_iff n default_credential_id)

additional_removed :
    (config : ConfigData) (n k : Text)
    → (fold n == default_credential_id) ≡ false
    → wifi_at k (record config {
      additional_wifi = keep (λ e. not (same_id e.id n)) config.additional_wifi;
    })
      ≡ (if fold n == k then none else wifi_at k config)
unfolding wifi_at key_of_wifi entry_credentials fold same_id eq_ignore_ascii_case
additional_removed config n k d =
    rw (find_key-keep key_of_wifi (fold n) config.additional_wifi k) ground (
      arith,
      ==_iff (fold n) k,
      ==_iff k default_credential_id,
      ==_iff (fold n) default_credential_id,
    )

-- What a write by an id leaves: the secret it stored, and what every id answers then.
abbrev IsWifiWritten : Text → Text → Option Text → ConfigData → ConfigData → Text → Type 0
IsWifiWritten n ssid credentials config config' k =
    (secret : Text) × ((credentials ≡ some secret)
      ⊎ (wifi_at (fold n) config ≡ some (ssid, secret)))
    × (wifi_at k config' ≡ (if fold n == k then some (ssid, secret) else wifi_at k config))

-- Removing an id by any spelling of it leaves nothing under it, and leaves every other id alone.
pub remove_wifi_credentials-wifi_credentials :
    (id other : Option Text) (config : ConfigData)
    → wifi_credentials other (remove_wifi_credentials id config) ≡ (
        if same_id (unwrap_or id default_credential_id) (unwrap_or other default_credential_id)
        then none
        else wifi_credentials other config)
unfolding remove_wifi_credentials
remove_wifi_credentials-wifi_credentials id other config =
    let n : Text = unwrap_or id default_credential_id in
    let o : Text = unwrap_or other default_credential_id in
    rw
      (
        wifi_at_lem other config,
        wifi_at_lem other (remove_wifi_credentials id config),
        same_id-fold n o,
      )
      (if_either
        (λ r. wifi_at (fold o) r ≡ (if fold n == fold o then none else wifi_at (fold o) config))
        (same_id n default_credential_id) _ _
        (λ d. default_removed config (fold n) (fold o) (rw (← same_id_default n) d))
        (λ d. additional_removed config n (fold o) (rw (← same_id_default n) d)))
