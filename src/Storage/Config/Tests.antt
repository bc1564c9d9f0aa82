-- ===== src/Storage/Config/Tests.antt =====
-- The configuration's theorems at one configuration.
use rs_matter_server.Prelude.{
  ◌≡◌, refl, true, none, some, List, [], ◌∷◌, ◌==◌, nat_ord, text_ord, any,
}
use rs_matter_server.Prelude.Text.{Text, text}
use rs_matter_server.Storage.Config.{ConfigData, default_credential_id, initial, wifi_credentials}
use rs_matter_server.Storage.Config.Summaries.{summaries, with_passwords, summaries_hide_passwords}
use rs_matter_server.Storage.Config.Registrations.{Base64}
use rs_matter_server.Storage.Config.Invariant.{
  Change, label, sets_wifi, registers, notes, apply_all, IsValid, apply_all-IsValid,
}

abbrev home : Text
home = text "home"

abbrev attic : Text
attic = text "Attic"

abbrev secret : Text
secret = text "hunter2"

abbrev initial_config : ConfigData
initial_config = record {
  fabric_label = attic;
  next_node_id = 7;
  wifi_ssid = none;
  wifi_credentials = none;
  thread_dataset = none;
  additional_wifi = [];
  additional_thread = [];
  icd_registrations = [];
}

abbrev config : ConfigData
config = record initial_config {
  additional_wifi = record { id = attic; ssid = home; credentials = secret } ∷ [];
}

summaries_hide_passwords_example :
    (summaries (with_passwords (λ s. []) config) ≡ summaries config)
    × (any (λ e. e.id == default_credential_id) (summaries config).wifi ≡ true)
    × (any (λ e. e.id == default_credential_id) (summaries config).thread ≡ true)
summaries_hide_passwords_example = summaries_hide_passwords (λ s. []) config

-- One byte per character stands for the codec.
instance codec : Base64
codec = record { encode = λ bytes. bytes; decode = λ t. some t; decode-encode = λ bytes. refl }

abbrev changes : List Change
changes =
    label attic
    ∷ sets_wifi (some attic) home (some secret)
    ∷ registers 5 (1 ∷ [])
    ∷ registers 5 (2 ∷ [])
    ∷ notes 5 3
    ∷ []

apply_all-IsValid_example : IsValid (apply_all initial changes)
apply_all-IsValid_example = apply_all-IsValid changes
