-- ===== src/Matter/Checkin/Tests.antt =====
-- The check-in theorems with a toy cipher.
use rs_matter_server.Prelude.{
  ℕ, ◌≡◌, refl, Option, none, some, List, [], ◌∷◌, ◌==◌, nat_ord, if◌then◌else◌,
}
use rs_matter_server.Prelude.Text.{text}
use rs_matter_server.Storage.Config.{ConfigData}
use rs_matter_server.Storage.Config.Registrations.{Base64, Registration}
use rs_matter_server.Matter.Checkin.{Cipher, identify, IsSender, identify-IsSender}

-- A toy cipher: the first byte of the key is that of the payload, the counter is the second.
toy : List ℕ → List ℕ → Option ℕ
toy (k ∷ key) (p ∷ counter ∷ payload) = if k == p then some counter else none
toy _ _ = none

instance cipher : Cipher
unfolding toy
cipher = record { parse = toy }

instance codec : Base64
codec = record { encode = λ bytes. bytes; decode = λ t. some t; decode-encode = λ bytes. refl }

abbrev key : ℕ → List ℕ
key k = k ∷ 0 ∷ 0 ∷ 0 ∷ 0 ∷ 0 ∷ 0 ∷ 0 ∷ 0 ∷ 0 ∷ 0 ∷ 0 ∷ 0 ∷ 0 ∷ 0 ∷ 0 ∷ []

abbrev registrations : List Registration
registrations = (5, key 1, some 3) ∷ (6, key 2, some 8) ∷ []

abbrev config : ConfigData
config = record {
  fabric_label = text "Home";
  next_node_id = 7;
  wifi_ssid = none;
  wifi_credentials = none;
  thread_dataset = none;
  additional_wifi = [];
  additional_thread = [];
  icd_registrations = record { node_id = 6; key = key 2; counter = some 8 } ∷ [];
}

sent : identify registrations (2 ∷ 9 ∷ []) ≡ some (6, 9)
unfolding identify toy cipher
sent = refl

identify-IsSender_example : IsSender registrations (2 ∷ 9 ∷ []) 6 9
identify-IsSender_example = identify-IsSender registrations (2 ∷ 9 ∷ []) 6 9 sent
