-- ===== src/Api/Ota/Tests.antt =====
-- The upload registry's theorems at one registry.
use rs_matter_server.Prelude.{◌≤◌, ◌≡◌, refl, true, some, List, [], ◌∷◌, nat_ord, text_ord, length}
use rs_matter_server.Prelude.Text.{text}
use rs_matter_server.Api.Ota.{
  SoftwareVersion, StoredImage, OtaUploadRegistry, OtaUploadTicket, new, find_image, matches,
  applies,
}
use rs_matter_server.Api.Ota.Reservations.{Request, reserves, redeems, run, reservations_are_capped}

abbrev version : SoftwareVersion
version = record { vid = 1; pid = 2; software_version = 9; min_applicable = 0; max_applicable = 8 }

abbrev image : StoredImage
image = record { version = version; bytes = 10 ∷ 20 ∷ 30 ∷ [] }

abbrev registry : OtaUploadRegistry
registry = record { reservations = []; images = image ∷ [] }

abbrev ticket : OtaUploadTicket
ticket = record { upload_id = text "a"; expires_in = 60; max_size = 67108864 }

there : find_image 1 2 9 registry ≡ some image
unfolding find_image matches
there = refl

applying : applies 1 2 8 image ≡ true
unfolding applies
applying = refl

abbrev requests : List Request
requests = reserves (text "a") 5 (text "x:1") ∷ redeems (text "a") 6 (text "x:2") ∷ []

reservations_are_capped_example : length (run new requests).reservations ≤ 4
reservations_are_capped_example = reservations_are_capped requests
